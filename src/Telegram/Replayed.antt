-- ===== src/Telegram/Replayed.antt =====
-- An update that control_plane/telegram/binding_service.py meets again.
use ai_agent_desktop.Base.{
  ℕ, ◌+◌, ◌≤◌, String, Bool, true, false, ◌&&◌, ◌||◌, Option, none, some, ◌≡◌, ◌⊎◌, inl, inr, refl,
  subst, arith, Bool-cases, Option-cases, leb,
}
use ai_agent_desktop.Base.Dict.{lookup, lookup-insert_self}
use ai_agent_desktop.Telegram.Rows.{
  BindingState, expired, SessionRecord, SlotRecord, Rows, audit, may_expire, expire_if_needed,
}
use ai_agent_desktop.Telegram.Payload.{Membership, is_closed, is_stale, latest, touched}
use ai_agent_desktop.Telegram.Applied.{put_slot}
use ai_agent_desktop.Telegram.Session.{is_over}
use ai_agent_desktop.Telegram.Updates.{
  open_update, membership_work, membership_update, or_other, read_membership,
  process_membership_update, with_membership,
}
use ai_agent_desktop.Telegram.Remembered.{last_of, Keeps, membership_work-Keeps}

-- An update that would be ignored now: there is no such slot, the session is closed, or the row
-- has met an update as late.
abbrev pub is_seen_row : ℕ → BindingState → Option SlotRecord → Bool
is_seen_row update_id state none = true
is_seen_row update_id state (some r) = is_closed state || is_stale update_id r

abbrev pub IsSeen : String → ℕ → Rows → Type 0
IsSeen slot update_id rows =
    is_seen_row update_id rows.binding.state (lookup slot rows.slots) ≡ true

-- A session that is neither completed nor canceled nor expired expires: its state becomes expired,
-- its revision grows by one, its time of change moves, and every other field is kept.
abbrev pub Expires : SessionRecord → SessionRecord → Type 0
Expires b b' =
    (is_over b.state ≡ false)
    × (b' ≡ record b { state = expired; updated_at = b'.updated_at; revision = b.revision + 1 })

-- Nothing but the time of expiry has moved the rows, and the audits.
pub record Unmoved (rows rows' : Rows) : Type 0 where
  pub slots : rows'.slots ≡ rows.slots
  pub groups : rows'.groups ≡ rows.groups
  pub binding : (rows'.binding ≡ rows.binding) ⊎ Expires rows.binding rows'.binding

pub Unmoved-refl : (rows : Rows) → Unmoved rows rows
Unmoved-refl rows = record { slots = refl; groups = refl; binding = inl refl }

may_expire-open : (state : BindingState) → may_expire state ≡ true → is_over state ≡ false
may_expire-open state h = ground (arith, h)

expired_cases :
    (now : ℕ) (rows : Rows)
    → (expire_if_needed now rows.binding ≡ rows.binding)
      ⊎ Expires rows.binding (expire_if_needed now rows.binding)
unfolding expire_if_needed
expired_cases now rows =
    elim (Bool-cases (leb rows.binding.expires_at now && may_expire rows.binding.state)) [
      | inl e ↦ rw e (inr (may_expire-open rows.binding.state (ground (arith, e)), refl))
      | inr e ↦ rw e (inl refl)
    ]

seen_of_last :
    (update_id last : ℕ) (state : BindingState) (row : Option SlotRecord)
    → last_of row ≡ some (some last)
    → update_id ≤ last
    → is_seen_row update_id state row ≡ true
seen_of_last update_id last state none h k = refl
seen_of_last update_id last state (some r) h k = elim (Option-cases r.last_update_id) [
  | inl e ↦ ground (arith, e, h)
  | inr (l, e) ↦ ground (arith, e, h, k)
]

later_latest : (last : Option ℕ) (update_id : ℕ) → update_id ≤ latest last update_id
later_latest none update_id = omega arith
later_latest (some last) update_id = omega arith

closed_seen :
    (update_id : ℕ) (state : BindingState) (row : Option SlotRecord)
    → is_closed state ≡ true
    → is_seen_row update_id state row ≡ true
closed_seen update_id state none c = refl
closed_seen update_id state (some r) c = ground (arith, c)

stays_closed :
    (now : ℕ) (rows : Rows)
    → is_closed rows.binding.state ≡ true
    → is_closed (expire_if_needed now rows.binding).state ≡ true
stays_closed now rows c = elim (expired_cases now rows) [ inl e ↦ rw e c | inr (h, e) ↦ rw e refl ]

-- A second look at an update that was seen.
open_update-again :
    (now : ℕ) (slot : String) (update_id : ℕ) (stale : String) (work : SlotRecord → Rows → Rows)
    (rows : Rows)
    → IsSeen slot update_id rows
    → Unmoved rows (open_update now slot update_id stale work rows)
      × IsSeen slot update_id (open_update now slot update_id stale work rows)
unfolding open_update audit
open_update-again now slot update_id stale work rows seen =
    elim (Option-cases (lookup slot rows.slots)) [
      | inl e ↦ rw (open_update, e) (Unmoved-refl rows, seen)
      | inr (r, e) ↦
          let rows' = record rows { binding = expire_if_needed now rows.binding } in
          let moved = expired_cases now rows in
          elim (Bool-cases (is_closed rows'.binding.state)) [
            | inl c ↦
                rw (open_update, e, c)
                  (
                    record { slots = refl; groups = refl; binding = moved },
                    closed_seen update_id _ (lookup slot rows.slots) c,
                  )
            | inr c ↦ elim (Bool-cases (is_stale update_id r)) [
              | inl s ↦
                  rw (open_update, e, c, s)
                    (
                      record { slots = refl; groups = refl; binding = moved },
                      rw e (ground (arith, s)),
                    )
              | inr s ↦
                  let seen' =
                    subst (λ row. is_seen_row update_id rows.binding.state row ≡ true) e seen in
                  let closed : is_closed rows.binding.state ≡ true = ground (arith, s, seen') in
                  ground (arith, c, stays_closed now rows closed)
            ]
          ]
    ]

-- The first look leaves it seen.
open_update-IsSeen :
    (now : ℕ) (slot : String) (update_id : ℕ) (stale : String) (work : SlotRecord → Rows → Rows)
    → ((r : SlotRecord) (rows : Rows)
        → lookup slot rows.slots ≡ some r
        → Keeps slot r (work r rows))
    → (rows : Rows) → IsSeen slot update_id (open_update now slot update_id stale work rows)
unfolding open_update audit touched put_slot
open_update-IsSeen now slot update_id stale work works rows =
    elim (Option-cases (lookup slot rows.slots)) [
      | inl e ↦ rw (open_update, e) (rw e refl)
      | inr (r, e) ↦
          let rows' = record rows { binding = expire_if_needed now rows.binding } in
          elim (Bool-cases (is_closed rows'.binding.state)) [
            | inl c ↦ rw (open_update, e, c) (closed_seen update_id _ (lookup slot rows.slots) c)
            | inr c ↦ elim (Bool-cases (is_stale update_id r)) [
              | inl s ↦ rw (open_update, e, c, s) (rw e (ground (arith, s)))
              | inr s ↦
                  let kept =
                    works (touched now update_id r) (put_slot slot (touched now update_id r) rows')
                      (lookup-insert_self slot (touched now update_id r) rows.slots) in
                  rw (open_update, e, c, s)
                    (seen_of_last update_id (latest r.last_update_id update_id) _ _ kept
                      (later_latest r.last_update_id update_id))
            ]
          ]
    ]

-- A part of the processing of one update: it does nothing, ever, or it leaves the update seen; and it
-- does not move what has seen the update.
abbrev pub IsOnce : String → ℕ → (ℕ → Rows → Rows) → Type 0
IsOnce slot update_id part =
    (((now : ℕ) (rows : Rows) → part now rows ≡ rows)
      ⊎ ((now : ℕ) (rows : Rows) → IsSeen slot update_id (part now rows)))
    × ((now : ℕ) (rows : Rows)
        → IsSeen slot update_id rows
        → Unmoved rows (part now rows) × IsSeen slot update_id (part now rows))

pub idle-IsOnce :
    (slot : String) (update_id : ℕ) (part : ℕ → Rows → Rows)
    → ((now : ℕ) (rows : Rows) → part now rows ≡ rows)
    → IsOnce slot update_id part
idle-IsOnce slot update_id part idle =
    (inl idle, λ now rows seen. rw (idle now rows) (Unmoved-refl rows, seen))

pub open_update-IsOnce :
    (slot : String) (update_id : ℕ) (stale : String) (work : ℕ → SlotRecord → Rows → Rows)
    → ((now : ℕ) (r : SlotRecord) (rows : Rows)
        → lookup slot rows.slots ≡ some r
        → Keeps slot r (work now r rows))
    → IsOnce slot update_id (λ now rows. open_update now slot update_id stale (work now) rows)
open_update-IsOnce slot update_id stale work works = (
  inr (λ now rows. open_update-IsSeen now slot update_id stale (work now) (works now) rows),
  λ now rows seen. open_update-again now slot update_id stale (work now) rows seen,
)

process_membership_update-IsOnce :
    (slot : String) (update_id : ℕ) (m : Membership)
    → IsOnce slot update_id (λ now rows. process_membership_update now slot update_id m rows)
unfolding process_membership_update read_membership membership_update
process_membership_update-IsOnce slot update_id m = elim (Option-cases m.chat) [
  | inl a ↦ idle-IsOnce slot update_id _ (λ now rows. rw a refl)
  | inr (chat, a) ↦ elim (Option-cases m.sender) [
    | inl b ↦ idle-IsOnce slot update_id _ (λ now rows. rw (a, b) refl)
    | inr (from, b) ↦ elim (Option-cases m.new_member) [
      | inl c ↦ idle-IsOnce slot update_id _ (λ now rows. rw (a, b, c) refl)
      | inr (new_member, c) ↦ elim (Option-cases from) [
        | inl d ↦ idle-IsOnce slot update_id _ (λ now rows. rw (a, b, c, d) refl)
        | inr (sender, d) ↦ elim (Option-cases chat.id) [
          | inl e ↦ idle-IsOnce slot update_id _ (λ now rows. rw (a, b, c, d, e) refl)
          | inr (chat_id, e) ↦ elim (Option-cases m.date) [
            | inl f ↦ idle-IsOnce slot update_id _ (λ now rows. rw (a, b, c, d, e, f) refl)
            | inr (date, f) ↦
                rw (a, b, c, d, e, f)
                  (open_update-IsOnce slot update_id "binding.stale_membership_update_ignored"
                    (λ now.
                      membership_work now slot update_id sender chat_id date chat
                        (or_other chat.kind) new_member)
                    (λ now.
                      membership_work-Keeps now slot update_id sender chat_id date chat
                        (or_other chat.kind) new_member))
          ]
        ]
      ]
    ]
  ]
]

pub with_membership-IsOnce :
    (slot : String) (update_id : ℕ) (membership : Option Membership)
    → IsOnce slot update_id (λ now rows. with_membership now slot update_id membership rows)
unfolding with_membership
with_membership-IsOnce slot update_id none = idle-IsOnce slot update_id _ (λ now rows. refl)
with_membership-IsOnce slot update_id (some m) = process_membership_update-IsOnce slot update_id m
