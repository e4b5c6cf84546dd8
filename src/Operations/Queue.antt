-- ===== src/Operations/Queue.antt =====
-- The bounded queue of control_plane/operations/executor.py: `register`, `submit`, `_fill_queue` and
-- `_worker`. `busy` are the operations that the worker threads have taken, the variables
-- `operation_id` of `_worker`; a set is a list in which the order does not matter.
use mathlib.Core.List
use ai_agent_desktop.Base.{
  ℕ, ◌+◌, String, Bool, true, false, not, ◌||◌, Option, none, some, List, [], ◌∷◌, length, contains,
  leb, str_eq, if◌then◌else◌,
}
use ai_agent_desktop.Base.Dict.{Dict, lookup, insert}
use ai_agent_desktop.Operations.Records.{queued, is_queued, OperationRecord, JobRecord, Database}
use ai_agent_desktop.Operations.Executor.{Registration}

pub record Executor : Type 0 where
  pub registrations : Dict Registration
  pub queue : List String
  pub capacity : ℕ
  pub enqueued : List String
  pub busy : List String
  pub started : Bool
  pub accepting : Bool
  pub shutdown : Bool

-- Why a call is refused: the `RuntimeError`s and `ValueError`s of `register` and `submit`.
pub data Refusal : Type 0 where
  already_started not_accepting no_operation other_job : Refusal
  already_registered not_registered : String → Refusal

pub data Answer {ℓ} (A : Type ℓ) : Type ℓ where
  accepted : A → Answer A
  refused : Refusal → Answer A

is_known : Option Registration → Bool
is_known none = false
is_known (some registration) = true

unfoldable pub register : String → Registration → Executor → Answer Executor
unfolding is_known
register kind registration e =
    if e.started
    then refused already_started
    else if is_known (lookup kind e.registrations)
    then refused (already_registered kind)
    else accepted (record e { registrations = insert kind registration e.registrations })

place : ℕ → String → List (ℕ × String) → List (ℕ × String)
place at id [] = (at, id) ∷ []
place at id ((at', id') ∷ rest) =
    let later = place at id rest in
    if leb at at' then (at, id) ∷ (at', id') ∷ rest else (at', id') ∷ later

queued_rows : Dict JobRecord → List (ℕ × String)
unfolding place
queued_rows [] = []
queued_rows ((id, job) ∷ rest) =
    let rows = queued_rows rest in
    if is_queued job.state then place job.created_at id rows else rows

ids_of : List (ℕ × String) → List String
ids_of [] = []
ids_of ((at, id) ∷ rest) = id ∷ ids_of rest

-- The keys of the queued jobs by their time of creation.
unfoldable pub queued_jobs : Dict JobRecord → List String
unfolding queued_rows ids_of
queued_jobs jobs = ids_of (queued_rows jobs)

-- `put_nowait`, unless the operation is enqueued; `none` is `queue.Full`.
unfoldable pub put : String → Executor → Option Executor
put id e =
    if contains e.enqueued id
    then some e
    else if leb e.capacity (length e.queue)
    then none
    else some (record e { queue = List.◌++◌ e.queue (id ∷ []); enqueued = id ∷ e.enqueued })

unfoldable pub put_all : List String → Executor → Executor
put_all [] e = e
put_all (id ∷ ids) e = elim (put id e) [ none ↦ e | some e' ↦ put_all ids e' ]

unfoldable pub fill_queue : Database → Executor → Executor
fill_queue db e = if not e.started || e.shutdown then e else put_all (queued_jobs db.jobs) e

-- `self._queue.get` of a worker.
unfoldable pub take : Executor → Executor
take e =
    if e.shutdown
    then e
    else elim e.queue [ [] ↦ e | id ∷ rest ↦ record e { queue = rest; busy = id ∷ e.busy } ]

unfoldable pub discard : String → List String → List String
discard id [] = []
discard id (x ∷ xs) = let more = discard id xs in if str_eq x id then more else x ∷ more

unfoldable pub leave : String → List String → List String
leave id [] = []
leave id (x ∷ xs) = if str_eq x id then xs else x ∷ leave id xs

-- A worker that is done with an operation lets it go.
unfoldable pub let_go : String → Executor → Executor
let_go id e =
    if contains e.busy id
    then record e { enqueued = discard id e.enqueued; busy = leave id e.busy }
    else e

-- The `finally` of the worker that holds the operation, with the database after its execution.
unfoldable pub finish : String → Database → Executor → Executor
finish id db e = if contains e.busy id then fill_queue db (let_go id e) else e

new_job : String → String → String → String → ℕ → JobRecord
new_job operation_id component_id kind payload now = record {
  operation_id = operation_id;
  component_id = component_id;
  kind = kind;
  payload_json = payload;
  state = queued;
  attempts = 0;
  created_at = now;
  updated_at = now;
}

-- The session of `submit`: whether it made the job, and the database.
submit_rows :
    String
    → String
    → String
    → String
    → ℕ
    → Option OperationRecord
    → Option JobRecord
    → Database
    → Answer (Bool × Database)
unfolding new_job
submit_rows operation_id component_id kind payload now none job db = refused no_operation
submit_rows operation_id component_id kind payload now (some op) none db = accepted (
  true,
  record db {
    jobs = insert operation_id (new_job operation_id component_id kind payload now) db.jobs;
  },
)
submit_rows operation_id component_id kind payload now (some op) (some job) db =
    if not (str_eq job.kind kind) || not (str_eq job.component_id component_id)
    then refused other_job
    else accepted (false, db)

filled : Answer (Bool × Database) → Database → Executor → Answer Bool × Database × Executor
filled (refused why) db e = (refused why, db, e)
filled (accepted (created, db')) db e = (accepted created, db', fill_queue db' e)

module _ (clock : ℕ → ℕ) where
  unfoldable pub submit :
      String → String → String → String → Database → Executor → Answer Bool × Database × Executor
  unfolding is_known submit_rows filled
  submit operation_id component_id kind payload db e =
      let now = clock db.ticks in
      let db' = record db { ticks = db.ticks + 1 } in
      let session =
        submit_rows operation_id component_id kind payload now (lookup operation_id db.operations)
          (lookup operation_id db.jobs) db' in
      if not e.started || not e.accepting
      then (refused not_accepting, db, e)
      else if not (is_known (lookup kind e.registrations))
      then (refused (not_registered kind), db, e)
      else filled session db' e
