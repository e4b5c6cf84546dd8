-- ===== src/Operations/Contract.antt =====
-- Idempotent creation, and what the columns of an operation hold by its status, in
-- control_plane/application/operation_store.py.
use ai_agent_desktop.Base.{
  ℕ, String, ◌≡◌, ◌≢◌, subst, inl, inr, refl, true, false, Option, none, some, arith, Bool-cases,
  if◌then◌else◌, str_eq, ◌&&◌,
}
use ai_agent_desktop.Base.Dict.{lookup, lookup-insert, lookup-insert_self}
use ai_agent_desktop.Errors.{UserFacingError}
use ai_agent_desktop.Operations.Records.{
  OperationStatus, queued, running, cancel_requested, succeeded, failed, canceled, is_terminal,
  is_cancel_requested, OperationRecord, Database,
}
use ai_agent_desktop.Operations.Store.{
  Request, answered, key_reuse, new_key, new_operation, create, Changes, or_keep?, changed,
  transition,
}

module _ (clock : ℕ → ℕ) (digest : String → String) where
  -- A request that repeats an earlier one under its key is answered with the operation that the
  -- earlier one made, marked as reused, and nothing is written; one that differs from it in method,
  -- resource or body digest is refused, and nothing is written.
  pub create_again :
      (op_id op_id' : String) (q q' : Request) (db : Database) (op : OperationRecord)
      → (create clock digest op_id q db).1 ≡ answered op false
      → q'.idempotency_key ≡ q.idempotency_key
      → let db' = (create clock digest op_id q db).0 in
        create clock digest op_id' q' db' ≡ (
          if str_eq (digest q.body) (digest q'.body)
            && str_eq q.method q'.method
            && str_eq q.resource q'.resource
          then (db', answered op true)
          else (db', key_reuse q'.idempotency_key))
  unfolding create
  create_again op_id op_id' q q' db op made same =
      let now = clock db.ticks in
      ground (
        arith,
        lookup-insert_self q.idempotency_key (new_key clock digest op_id q now) db.idempotency,
        lookup-insert_self op_id (new_operation clock digest op_id q now) db.operations,
      )

-- What the columns hold by the status.
abbrev pub Columns : OperationStatus → Option String → Option UserFacingError → Option ℕ → Type 0
Columns queued result error completed = (result ≡ none) × (error ≡ none) × (completed ≡ none)
Columns running result error completed = (result ≡ none) × (error ≡ none) × (completed ≡ none)
Columns cancel_requested result error completed =
    (result ≡ none) × (error ≡ none) × (completed ≡ none)
Columns succeeded result error completed = (error ≡ none) × (completed ≢ none)
Columns failed result error completed = (result ≡ none) × (error ≢ none) × (completed ≢ none)
Columns canceled result error completed = (result ≡ none) × (completed ≢ none)

-- An operation that has not ended has neither result nor error nor time of completion; a success
-- has no error, a failure an error and no result, a cancellation no result, and all three a time.
abbrev pub Conforms : OperationRecord → Type 0
Conforms r = Columns r.status r.result_json r.error_json r.completed_at

-- The moves of the executor: to a live status with no result and no error, to success or to a
-- cancellation with no error, to failure with an error and no result.
abbrev pub Permitted : OperationStatus → Changes → Type 0
Permitted failed c = (c.error ≢ none) × (c.result ≡ none)
Permitted succeeded c = Unit
Permitted canceled c = Unit
Permitted _ c = (c.error ≡ none) × (c.result ≡ none)

live-Columns :
    (s : OperationStatus) (result : Option String) (error : Option UserFacingError)
    (completed : Option ℕ)
    → is_terminal s ≡ false
    → Columns s result error completed
    → (result ≡ none) × (error ≡ none) × (completed ≡ none)
live-Columns queued result error completed live h = h
live-Columns running result error completed live h = h
live-Columns cancel_requested result error completed live h = h
live-Columns succeeded result error completed live h = cc
live-Columns failed result error completed live h = cc
live-Columns canceled result error completed live h = cc

or_keep?-none {ℓ} : {A : Type ℓ} (a b : Option A) → a ≢ none → or_keep? a b ≢ none
or_keep?-none none b h = absurd (h refl)
or_keep?-none (some a) b h = h

-- A transition of an operation that has not ended keeps its columns as its status allows, if it
-- brings an error and no result with a failure, and neither with a status that is not terminal.
changed-Conforms :
    (status : OperationStatus) (c : Changes) (now : ℕ) (r : OperationRecord)
    → is_terminal r.status ≡ false
    → Permitted status c
    → Conforms r
    → Conforms (changed status c now r)
unfolding changed
changed-Conforms queued c now r live may h =
    let (p, q, t) = live-Columns r.status r.result_json r.error_json r.completed_at live h in
    (ground arith, ground arith, ground arith)
changed-Conforms running c now r live may h =
    let (p, q, t) = live-Columns r.status r.result_json r.error_json r.completed_at live h in
    (ground arith, ground arith, ground arith)
changed-Conforms cancel_requested c now r live may h =
    let (p, q, t) = live-Columns r.status r.result_json r.error_json r.completed_at live h in
    (ground arith, ground arith, ground arith)
changed-Conforms succeeded c now r live may h = (refl, λ e. cc)
changed-Conforms failed c now r live may h =
    (refl, or_keep?-none c.error r.error_json may.0, λ e. cc)
changed-Conforms canceled c now r live may h = (refl, λ e. cc)

-- Every operation of the database has the columns that its status allows.
abbrev pub AllConform : Database → Type 0
AllConform db = (k : String) (r : OperationRecord) → lookup k db.operations ≡ some r → Conforms r

module _ (clock : ℕ → ℕ) where
  pub lookup-transition :
      (id k : String) (status : OperationStatus) (c : Changes) (db : Database)
      (op : OperationRecord)
      → lookup id db.operations ≡ some op
      → lookup k (transition clock id status c db).operations ≡ (
          if str_eq id k
          then some (changed status c (clock db.ticks) op)
          else lookup k db.operations)
  unfolding transition
  lookup-transition id k status c db op e =
      rw e (lookup-insert id k (changed status c (clock db.ticks) op) db.operations)

  pub AllConform-transition :
      (id : String) (status : OperationStatus) (c : Changes) (db : Database) (op : OperationRecord)
      → lookup id db.operations ≡ some op
      → is_terminal op.status ≡ false
      → Permitted status c
      → AllConform db
      → AllConform (transition clock id status c db)
  AllConform-transition id status c db op e live may all k r h = elim (Bool-cases (str_eq id k)) [
    | inl here ↦
        let same : next ≡ r = ground (arith, lookup-transition id k status c db op e) in
        subst (λ t. Conforms t) {x = next} {y = r} same
          (changed-Conforms status c (clock db.ticks) op live may (all id op e))
    | inr there ↦ all k r (ground (arith, lookup-transition id k status c db op e))
  ]
    where
      next : OperationRecord
      next = changed status c (clock db.ticks) op

pub live_of_cancel : (s : OperationStatus) → is_cancel_requested s ≡ true → is_terminal s ≡ false
live_of_cancel s h = ground arith
