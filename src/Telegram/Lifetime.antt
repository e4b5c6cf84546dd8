-- ===== src/Telegram/Lifetime.antt =====
-- A binding session of control_plane/telegram/binding_service.py from `create` on, through every
-- method that writes its rows.
use ai_agent_desktop.Base.{
  ℕ, String, true, false, Option, none, some, List, [], ◌∷◌, ◌≡◌, refl, inl, inr, ◌≢◌, arith,
  length, Bool-cases, Option-cases, subst, sym,
}
use ai_agent_desktop.Base.Dict.{lookup, lookup-insert_self}
use ai_agent_desktop.Telegram.Rows.{
  Text, BindingState, completed, conflict, SlotRecord, Rows, audit, expire_if_needed, may_expire,
}
use ai_agent_desktop.Telegram.Payload.{Message, Membership, Update, is_closed}
use ai_agent_desktop.Telegram.Updates.{
  open_update, membership_work, membership_update, with_membership, message_work, message_update,
  with_message, process_update,
}
use ai_agent_desktop.Telegram.Session.{
  Identity, Service, new_slots, new_rows, resumed_rows, marked_rows, cancel_rows, is_over,
  terminal_error,
}
use ai_agent_desktop.Errors.{UserFacingError, ok, err}
use ai_agent_desktop.Telegram.Service.{resume_rows, put_rows, same_identities}
use ai_agent_desktop.Telegram.Sound.{is_completed, rows_ok, IsSound}
use ai_agent_desktop.Telegram.Invariant.{IsOpen-IsSound, expire-IsSound}
use ai_agent_desktop.Telegram.Kept.{
  process_membership_update_lem, process_message_lem, process_update-IsSound,
}

-- One method's work on the rows of a session, but for `_set_state`. Of `resume` it is what is stored
-- when its work on the rows returns.
pub data Later (casefold : Text → Text) (digest : Text → String) (rows : Rows) : Rows → Type 0 where
  updated :
      (now later : ℕ) (slot : String) (update : Update)
      → Later casefold digest rows (process_update casefold digest now later slot update rows)
  timed :
      (now : ℕ)
      → Later casefold digest rows (record rows { binding = expire_if_needed now rows.binding })
  withdrawn : (now : ℕ) → Later casefold digest rows (cancel_rows now rows)
  reissued :
      (clock : ℕ → ℕ) (quote : Text → Text) (keyed : String → Text → String) (session_id : String)
      (code : Text) (expires_at now : ℕ) (identities : List Identity) (s s' : Service)
      (rows' : Rows)
      → resume_rows clock casefold quote keyed session_id code expires_at now identities rows s
        ≡ (ok tt, s')
      → lookup session_id s'.sessions ≡ some rows'
      → Later casefold digest rows rows'

-- The rows that a session of three bots can come to.
pub data Life (casefold : Text → Text) (digest : Text → String) : Rows → Type 0 where
  started :
      (digested : String) (expires_at now : ℕ) (identities : List Identity)
      → length identities ≡ 3
      → Life casefold digest (new_rows digested expires_at now identities)
  lived :
      (rows rows' : Rows)
      → Life casefold digest rows
      → Later casefold digest rows rows'
      → Life casefold digest rows'
  marked :
      (rows : Rows) (now : ℕ) (failure_code : String)
      → Life casefold digest rows
      → Life casefold digest (marked_rows now conflict failure_code rows)

length-new_slots :
    (now : ℕ) (identities : List Identity) → length (new_slots now identities) ≡ length identities
unfolding new_slots
length-new_slots now [] = refl
length-new_slots now (i ∷ rest) = omega (arith, length-new_slots now rest)

new_slots_ok :
    (now : ℕ) (identities : List Identity) → rows_ok none (new_slots now identities) ≡ true
unfolding new_slots
new_slots_ok now [] = refl
new_slots_ok now (i ∷ rest) = new_slots_ok now rest

new_rows-IsSound :
    (digested : String) (expires_at now : ℕ) (identities : List Identity)
    → length identities ≡ 3
    → IsSound (new_rows digested expires_at now identities)
unfolding new_rows
new_rows-IsSound digested expires_at now identities three =
    IsOpen-IsSound _
      ((omega (arith, length-new_slots now identities, three), new_slots_ok now identities), refl)

cancel_rows-IsSound : (now : ℕ) (rows : Rows) → IsSound rows → IsSound (cancel_rows now rows)
unfolding cancel_rows audit
cancel_rows-IsSound now rows h = elim (Bool-cases (is_over rows.binding.state)) [
  | inl e ↦ rw (cancel_rows, e) h
  | inr e ↦ rw (cancel_rows, e) (IsOpen-IsSound _ (h.agreed, refl))
]

completed_facts :
    (state : BindingState)
    → is_completed state ≡ true
    → (may_expire state ≡ false)
      × (is_closed state ≡ true)
      × (is_over state ≡ true)
      × (terminal_error state ≢ none)
unfolding terminal_error
completed_facts completed h = (refl, refl, refl, λ e. ground (arith, e))
completed_facts _ h = ground (arith, h)

timed_completed :
    (now : ℕ) (rows : Rows)
    → is_completed rows.binding.state ≡ true
    → expire_if_needed now rows.binding ≡ rows.binding
unfolding expire_if_needed
timed_completed now rows h = ground (arith, (completed_facts rows.binding.state h).0)

open_update_completed :
    (now : ℕ) (slot : String) (update_id : ℕ) (stale : String) (work : SlotRecord → Rows → Rows)
    (rows : Rows)
    → is_completed rows.binding.state ≡ true
    → open_update now slot update_id stale work rows ≡ rows
unfolding open_update
open_update_completed now slot update_id stale work rows h =
    let closed : is_closed (expire_if_needed now rows.binding).state ≡ true =
      rw (timed_completed now rows h) ((completed_facts rows.binding.state h).1) in
    elim (Option-cases (lookup slot rows.slots)) [
      | inl e ↦ rw (open_update, e) refl
      | inr (r, e) ↦ rw (open_update, e, closed, timed_completed now rows h) refl
    ]

module _ (casefold : Text → Text) where
  module _ (clock : ℕ → ℕ) (quote : Text → Text) (keyed : String → Text → String)
      (session_id : String) (code : Text) (expires_at now : ℕ) (identities : List Identity)
      (rows : Rows) (s : Service) where
    -- When the work of `resume` on the rows returns, the session was in no terminal state.
    resume_rows-ok :
        (s' : Service) (rows' : Rows)
        → resume_rows clock casefold quote keyed session_id code expires_at now identities rows s
          ≡ (ok tt, s')
        → lookup session_id s'.sessions ≡ some rows'
        → (terminal_error rows.binding.state ≡ none)
          × (rows' ≡ resumed_rows (keyed session_id code) expires_at now rows)
    unfolding resume_rows put_rows
    resume_rows-ok s' rows' done found =
        let next = resumed_rows (keyed session_id code) expires_at now rows in
        elim (Option-cases (terminal_error rows.binding.state)) [
          | inr (e, t) ↦ absurd (ground (arith, done, t))
          | inl t ↦
              elim (Bool-cases (same_identities clock casefold quote keyed identities rows.slots)) [
                | inr other ↦ absurd (ground (arith, done, t, other))
                | inl same ↦ (
                  t,
                  ground
                      (arith, done, t, same, found, lookup-insert_self session_id next s.sessions),
                )
              ]
        ]

    -- For a completed session it raises, and stores the rows as they are.
    resume_rows_completed :
        is_completed rows.binding.state ≡ true
        → (e : UserFacingError) × (resume_rows clock casefold quote keyed session_id code expires_at
              now identities rows s
            ≡ (err e, put_rows session_id rows s))
    unfolding resume_rows
    resume_rows_completed h = elim (Option-cases (terminal_error rows.binding.state)) [
      | inl t ↦ absurd ((completed_facts rows.binding.state h).3 t)
      | inr (e, t) ↦ (e, rw (resume_rows, t) refl)
    ]

module _ (casefold : Text → Text) (digest : Text → String) where
  Later-IsSound :
      (rows rows' : Rows) → IsSound rows → Later casefold digest rows rows' → IsSound rows'
  unfolding resumed_rows audit
  Later-IsSound rows _ h (updated now later slot update) =
      process_update-IsSound casefold digest now later slot update rows h
  Later-IsSound rows _ h (timed now) = expire-IsSound now rows h
  Later-IsSound rows _ h (withdrawn now) = cancel_rows-IsSound now rows h
  Later-IsSound rows _ h
        (reissued clock quote keyed session_id code expires_at now identities s s' rows' done
          found) =
      let (live, same) =
        resume_rows-ok casefold clock quote keyed session_id code expires_at now identities rows s
          s' rows' done found in
      subst (λ x. IsSound x) (sym same) (record { agreed = h.agreed; complete = h.complete })

  -- In every state that a session of three bots can come to, the rows agree: there are three, a
  -- bound private chat is the operator's and a bound group has an id. If the session is completed,
  -- it has an operator and a group, and all three bots are bound in private to this operator and
  -- in this group.
  pub Life-IsSound : (rows : Rows) → Life casefold digest rows → IsSound rows
  unfolding marked_rows
  Life-IsSound _ (started digested expires_at now identities three) =
      new_rows-IsSound digested expires_at now identities three
  Life-IsSound _ (lived rows rows' life step) =
      Later-IsSound rows rows' (Life-IsSound rows life) step
  Life-IsSound _ (marked rows now failure_code life) =
      IsOpen-IsSound _ ((Life-IsSound rows life).agreed, refl)

  with_membership_completed :
      (now : ℕ) (slot : String) (update_id : ℕ) (membership : Option Membership) (rows : Rows)
      → is_completed rows.binding.state ≡ true
      → with_membership now slot update_id membership rows ≡ rows
  unfolding with_membership membership_update
  with_membership_completed now slot update_id none rows h = refl
  with_membership_completed now slot update_id (some m) rows h =
      process_membership_update_lem (λ rows'. rows' ≡ rows) now slot update_id m rows refl
        (λ sender chat_id date chat kind new_member.
          open_update_completed now slot update_id "binding.stale_membership_update_ignored"
            (membership_work now slot update_id sender chat_id date chat kind new_member) rows h)

  with_message_completed :
      (now : ℕ) (slot : String) (update_id : ℕ) (message : Option Message) (rows : Rows)
      → is_completed rows.binding.state ≡ true
      → with_message casefold digest now slot update_id message rows ≡ rows
  unfolding with_message message_update
  with_message_completed now slot update_id none rows h = refl
  with_message_completed now slot update_id (some m) rows h =
      process_message_lem casefold digest (λ rows'. rows' ≡ rows) now slot update_id m rows refl
        (λ sender chat_id date chat kind text.
          open_update_completed now slot update_id "binding.stale_message_update_ignored"
            (message_work casefold digest now slot update_id sender chat_id date chat kind text)
            rows h)

  module _ (rows : Rows) (h : is_completed rows.binding.state ≡ true) where
    Later-completed : (rows' : Rows) → Later casefold digest rows rows' → rows' ≡ rows
    unfolding process_update cancel_rows
    Later-completed _ (updated now later slot update) =
        rw (with_membership_completed now slot update.update_id update.membership rows h)
          (with_message_completed later slot update.update_id update.message rows h)
    Later-completed _ (timed now) = rw (timed_completed now rows h) refl
    Later-completed _ (withdrawn now) = rw ((completed_facts rows.binding.state h).2) refl
    Later-completed _
          (reissued clock quote keyed session_id code expires_at now identities s s' rows' done
            found) =
        let (live, same) =
          resume_rows-ok casefold clock quote keyed session_id code expires_at now identities rows s
            s' rows' done found in
        absurd ((completed_facts rows.binding.state h).3 live)

  -- A completed session stays as it is: no update, no passing of its time and no cancellation
  -- changes any of its rows, and the work of `resume` on its rows raises and stores them unchanged,
  -- whatever the code, the times and the identities it is given.
  pub completed_final :
      (rows rows' : Rows)
      → is_completed rows.binding.state ≡ true
      → Later casefold digest rows rows'
      → (clock : ℕ → ℕ) (quote : Text → Text) (keyed : String → Text → String) (session_id : String)
        (code : Text) (expires_at now : ℕ) (identities : List Identity) (s : Service)
      → (rows' ≡ rows)
        × ((e : UserFacingError) × (resume_rows clock casefold quote keyed session_id code
                expires_at now identities rows s
              ≡ (err e, put_rows session_id rows s)))
  completed_final rows rows' h step clock quote keyed session_id code expires_at now identities s =
      (
        Later-completed rows h rows' step,
        resume_rows_completed casefold clock quote keyed session_id code expires_at now identities
            rows s h,
      )
