-- ===== src/Operations/Workers.antt =====
-- What the queue and the workers of control_plane/operations/executor.py hold.
use mathlib.Core.List
use ai_agent_desktop.Base.{
  ℕ, ◌+◌, ◌-◌, ◌≤◌, String, ◌≡◌, ◌⊎◌, inl, inr, refl, subst, true, false, not, ◌&&◌, ◌||◌, Option,
  none, some, List, [], ◌∷◌, arith, Bool-cases, eq_iff, if◌then◌else◌, str_eq, contains, length,
  leb, length-append,
}
use ai_agent_desktop.Operations.Records.{Database}
use ai_agent_desktop.Operations.Queue.{
  Executor, queued_jobs, put, put_all, fill_queue, take, discard, leave, let_go, finish,
}

-- How often the text stands in the list.
abbrev pub count : String → List String → ℕ
count a [] = 0
count a (x ∷ xs) = (if str_eq x a then 1 else 0) + count a xs

-- The queue is within its capacity, and an operation is in the queue or with a worker exactly once
-- if it is enqueued, and nowhere if it is not.
abbrev pub IsQueue : Executor → Type 0
IsQueue e =
    (length e.queue ≤ e.capacity)
    × ((id : String)
        → count id e.busy + count id e.queue ≡ (if contains e.enqueued id then 1 else 0))

count-append :
    (a : String) (xs ys : List String) → count a (List.◌++◌ xs ys) ≡ count a xs + count a ys
count-append a [] ys = omega arith
count-append a (x ∷ xs) ys = omega (arith, count-append a xs ys)

contains-discard :
    (id a : String) (xs : List String)
    → contains (discard id xs) a ≡ (contains xs a && not (str_eq id a))
unfolding discard
contains-discard id a [] = refl
contains-discard id a (x ∷ xs) =
    let rest = contains-discard id a xs in
    ground (arith, rest, eq_iff x id, eq_iff x a, eq_iff id a)

count-leave :
    (id a : String) (xs : List String)
    → count a (leave id xs) ≡ (if str_eq id a then count a xs - 1 else count a xs)
unfolding leave
count-leave id a [] = ground arith
count-leave id a (x ∷ xs) =
    let rest = count-leave id a xs in ground (arith, rest, eq_iff x id, eq_iff x a, eq_iff id a)

contains-count : (a : String) (xs : List String) → contains xs a ≡ true → 1 ≤ count a xs
contains-count a [] h = ground arith
contains-count a (x ∷ xs) h = let rest = contains-count a xs in ground (arith, rest)

abbrev Kept : Option Executor → Type 0
Kept none = Unit
Kept (some e) = IsQueue e

put-Kept : (id : String) (e : Executor) → IsQueue e → Kept (put id e)
unfolding put
put-Kept id e h = elim (Bool-cases (contains e.enqueued id)) [
  | inl known ↦ rw known h
  | inr new ↦ elim (Bool-cases (leb e.capacity (length e.queue))) [
    | inl full ↦ rw (new, full) tt
    | inr room ↦
        rw (new, room)
          (
            ground (arith, length-append e.queue (id ∷ []), room),
            (λ a. ground (arith, h.1 a, count-append a e.queue (id ∷ []), eq_iff id a)),
          )
  ]
]

put_all-IsQueue : (ids : List String) (e : Executor) → IsQueue e → IsQueue (put_all ids e)
unfolding put_all
put_all-IsQueue [] e h = h
put_all-IsQueue (id ∷ ids) e h = go (put id e) (put-Kept id e h) (λ e' k. put_all-IsQueue ids e' k)
  where
    go :
        (next : Option Executor)
        → Kept next
        → ((e' : Executor) → IsQueue e' → IsQueue (put_all ids e'))
        → IsQueue (elim next [ none ↦ e | some e' ↦ put_all ids e' ])
    go none k rest = h
    go (some e') k rest = rest e' k

fill_queue-IsQueue : (db : Database) (e : Executor) → IsQueue e → IsQueue (fill_queue db e)
unfolding fill_queue
fill_queue-IsQueue db e h = elim (Bool-cases (not e.started || e.shutdown)) [
  | inl idle ↦ rw idle h
  | inr active ↦ rw active (put_all-IsQueue (queued_jobs db.jobs) e h)
]

take-IsQueue : (e : Executor) → IsQueue e → IsQueue (take e)
unfolding take
take-IsQueue e h = elim (Bool-cases e.shutdown) [
  | inl down ↦ rw down h
  | inr up ↦ rw up (go e.queue refl)
]
  where
    Once : List String → Type 0
    Once queue =
        (length queue ≤ e.capacity)
        × ((a : String) → count a e.busy + count a queue ≡ (if contains e.enqueued a then 1 else 0))

    go :
        (queue : List String)
        → e.queue ≡ queue
        → IsQueue
            (elim queue [ [] ↦ e | id ∷ rest ↦ record e { queue = rest; busy = id ∷ e.busy } ])
    go [] same = h
    go (id ∷ rest) same =
        let (bound, once) : Once (id ∷ rest) = subst Once same h in
        (omega arith, (λ a. omega (arith, once a)))

let_go-IsQueue : (id : String) (e : Executor) → IsQueue e → IsQueue (let_go id e)
unfolding let_go
let_go-IsQueue id e h = elim (Bool-cases (contains e.busy id)) [
  | inl held ↦ rw held (
    h.0,
    (λ a. ground (
      arith,
      h.1 a,
      contains-discard id a e.enqueued,
      count-leave id a e.busy,
      contains-count id e.busy held,
      eq_iff id a,
    )),
  )
  | inr free ↦ rw free h
]

finish-IsQueue : (id : String) (db : Database) (e : Executor) → IsQueue e → IsQueue (finish id db e)
unfolding finish
finish-IsQueue id db e h = elim (Bool-cases (contains e.busy id)) [
  | inl held ↦ rw held (fill_queue-IsQueue db (let_go id e) (let_go-IsQueue id e h))
  | inr free ↦ rw free h
]

-- A turn of the executor: a thread fills the queue, a worker takes an operation, or finishes it. In
-- between a thread may have put a single operation, and a worker may have let one go and not yet
-- filled the queue.
pub data Turn : Type 0 where
  filling : Database → Turn
  putting : String → Turn
  taking : Turn
  leaving : String → Turn
  finishing : String → Database → Turn

abbrev turn : Turn → Executor → Executor
turn (filling db) e = fill_queue db e
turn (putting id) e = elim (put id e) [ none ↦ e | some e' ↦ e' ]
turn taking e = take e
turn (leaving id) e = let_go id e
turn (finishing id db) e = finish id db e

abbrev pub turns : List Turn → Executor → Executor
turns [] e = e
turns (t ∷ ts) e = turns ts (turn t e)

turn-IsQueue : (t : Turn) (e : Executor) → IsQueue e → IsQueue (turn t e)
turn-IsQueue (filling db) e h = fill_queue-IsQueue db e h
turn-IsQueue (putting id) e h = go (put id e) (put-Kept id e h)
  where
    go : (next : Option Executor) → Kept next → IsQueue (elim next [ none ↦ e | some e' ↦ e' ])
    go none kept = h
    go (some e') kept = kept
turn-IsQueue taking e h = take-IsQueue e h
turn-IsQueue (leaving id) e h = let_go-IsQueue id e h
turn-IsQueue (finishing id db) e h = finish-IsQueue id db e h

-- Whatever the turns of any number of workers and of submitting threads, and whatever the database
-- shows at each of them: the queue stays within its capacity, and no operation is ever with two
-- workers, twice in the queue, or in the queue while a worker has it.
pub turns-IsQueue : (ts : List Turn) (e : Executor) → IsQueue e → IsQueue (turns ts e)
turns-IsQueue [] e h = h
turns-IsQueue (t ∷ ts) e h = turns-IsQueue ts (turn t e) (turn-IsQueue t e h)

-- The operation is enqueued, or the queue is full.
abbrev IsMarked : String → Executor → Type 0
IsMarked k e = (contains e.enqueued k ≡ true) ⊎ (e.capacity ≤ length e.queue)

-- The operation stands in the queue, or a worker has it, or the queue is full.
abbrev pub IsServed : String → Executor → Type 0
IsServed k e =
    (contains e.queue k ≡ true) ⊎ (contains e.busy k ≡ true) ⊎ (e.capacity ≤ length e.queue)

count-contains : (a : String) (xs : List String) → 1 ≤ count a xs → contains xs a ≡ true
count-contains a [] h = ground (arith, h)
count-contains a (x ∷ xs) h = let rest = count-contains a xs in ground (arith, rest)

marked-IsServed : (k : String) (e : Executor) → IsQueue e → IsMarked k e → IsServed k e
marked-IsServed k e h (inr full) = inr (inr full)
marked-IsServed k e h (inl marked) = elim (Bool-cases (contains e.queue k)) [
  | inl waiting ↦ inl waiting
  | inr absent ↦
      ground (arith, h.1 k, marked, absent, count-contains k e.queue, count-contains k e.busy)
]

put_all-IsMarked :
    (ids : List String) (k : String) (e : Executor)
    → (contains ids k ≡ true) ⊎ (contains e.enqueued k ≡ true)
    → IsMarked k (put_all ids e)
unfolding put_all put
put_all-IsMarked [] k e h = inl (ground arith)
put_all-IsMarked (id ∷ ids) k e h = elim (Bool-cases (contains e.enqueued id)) [
  | inl known ↦ rw (put_all, known) (put_all-IsMarked ids k e (ground (arith, eq_iff id k)))
  | inr new ↦ elim (Bool-cases (leb e.capacity (length e.queue))) [
    | inl full ↦ rw (put_all, new, full) (inr (ground arith))
    | inr room ↦
        let e' : Executor = record e {
          queue = List.◌++◌ e.queue (id ∷ []);
          enqueued = id ∷ e.enqueued;
        } in
        rw (put_all, new, room) (put_all-IsMarked ids k e' (ground arith))
  ]
]

-- When the queue is as it should be, with each enqueued operation in it or with a worker exactly
-- once, and the executor is started and not shut down, filling the queue leaves no queued job aside:
-- afterwards every one stands in the queue or is with a worker, unless the queue is full.
pub fill_queue-IsServed :
    (db : Database) (e : Executor) (k : String)
    → IsQueue e
    → e.started ≡ true
    → e.shutdown ≡ false
    → contains (queued_jobs db.jobs) k ≡ true
    → IsServed k (fill_queue db e)
unfolding fill_queue
fill_queue-IsServed db e k fine on up waiting =
    let marked = put_all-IsMarked (queued_jobs db.jobs) k e (inl waiting) in
    marked-IsServed k (fill_queue db e) (fill_queue-IsQueue db e fine) (ground arith)
