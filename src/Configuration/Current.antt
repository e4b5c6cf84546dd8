-- ===== src/Configuration/Current.antt =====
-- What `_verified_current` of control_plane/configuration/service.py finds, and how an action is
-- followed whose raising leaves the file, the history and the plans.
use ai_agent_desktop.Base.{
  ℕ, max, String, Option, none, some, List, [], ◌∷◌, ◌≡◌, refl, inl, inr, arith, sym, subst, ap,
  ◌∙◌,
}
use ai_agent_desktop.Configuration.Records.{Bytes, ManagedConfiguration, RevisionRecord}
use ai_agent_desktop.Configuration.Template.{Codec}
use ai_agent_desktop.Configuration.Disk.{
  Platform, World, Attempt, ok, raised, Attempt-cases, Action, ◌>>=◌,
}
use ai_agent_desktop.Configuration.Store.{read_bytes, assert_safe, ask_layout}
use ai_agent_desktop.Configuration.Commit.{optional_digest}
use ai_agent_desktop.Configuration.History.{session, latest_revision}
use ai_agent_desktop.Configuration.Service.{
  Services, Current, verified_current, current_of, checked_record,
}
use ai_agent_desktop.Configuration.Preflight.{
  Held, Holds, Holds-read_bytes, Holds-current_of, Holds-latest_revision, session-ok,
}

-- The action raises and leaves file, history and plans, or returns with what `Q` says.
abbrev pub Ending : {A : Type 0} → (A → World → Type 0) → World → Attempt A × World → Type 0
Ending Q before (ok a, w) = Q a w
Ending Q before (raised e, w) = Held before (tt, w)

pub ending_ok :
    {A : Type 0} (Q : A → World → Type 0) (before : World) (end : Attempt A × World) (a : A)
    → end.0 ≡ ok a
    → Ending Q before end
    → Q a end.1
ending_ok Q before (ok b, w) a h q = subst (λ (x : Attempt _). Ending Q before (x, w)) h q
ending_ok Q before (raised e, w) a h q = absurd (cc)

Held-trans : (a b c : World) → Held a (tt, b) → Held b (tt, c) → Held a (tt, c)
Held-trans a b c h k = (k.0 ∙ h.0, k.1 ∙ h.1, k.2 ∙ h.2)

-- An action that leaves file, history and plans, and then what follows it.
pub Ending-bind :
    {A B : Type 0} (Q : B → World → Type 0) (before w : World) (m : Action A) (f : A → Action B)
    → Held before (tt, w)
    → Holds m
    → ((a : A) → (m w).0 ≡ ok a → Held before (tt, (m w).1) → Ending Q before (f a (m w).1))
    → Ending Q before ((m >>= f) w)
Ending-bind Q before w m f held holds next =
    let held' = Held-trans before w (m w).1 held (holds.at w) in
    elim (Attempt-cases (m w).0) [ inl (a, h) ↦ rw h (next a h held') | inr (e, h) ↦ rw h held' ]

-- The same of an action in every world with the file, the history and the plans of `before`.
pub record Ends {A : Type 0} (Q : A → World → Type 0) (before : World) (m : Action A) : Type 0 where
  pub at : (w : World) → Held before (tt, w) → Ending Q before (m w)

-- The file, the history and the plans are as before, and `F` holds of what was returned.
abbrev pub Found : {A : Type 0} → (A → Type 0) → World → A → World → Type 0
Found F before a w = Held before (tt, w) × F a

pub Ends-Found :
    {A : Type 0} (F : A → Type 0) (before : World) (m : Action A)
    → Holds m
    → ((w : World) (a : A) → Held before (tt, w) → (m w).0 ≡ ok a → F a)
    → Ends (Found F before) before m
Ends-Found F before m holds found = record {
  at = λ w held.
      let held' = Held-trans before w (m w).1 held (holds.at w) in
      elim (Attempt-cases (m w).0) [
        | inl (a, h) ↦ rw h (held', found w a held h)
        | inr (e, h) ↦ rw h held'
      ];
}

pub Ends-bind :
    {A B : Type 0} {Q : B → World → Type 0} {before : World} (F : A → Type 0) (m : Action A)
    (f : A → Action B)
    → Holds m
    → Ends (Found F before) before m
    → ((a : A) → F a → Ends Q before (f a))
    → Ends Q before (m >>= f)
Ends-bind {Q = Q} {before = before} F m f holds found next = record {
  at = λ w held. Ending-bind Q before w m f held holds (λ a h held'.
      (next a (ending_ok (Found F before) before (m w) a h (found.at w held)).1).at (m w).1 held');
}

pub Ends-after :
    {A B : Type 0} {Q : B → World → Type 0} {before : World} (m : Action A) (f : A → Action B)
    → Holds m
    → ((a : A) → Ends Q before (f a))
    → Ends Q before (m >>= f)
Ends-after {Q = Q} {before = before} m f holds next = record {
  at = λ w held. Ending-bind Q before w m f held holds (λ a h held'. (next a).at (m w).1 held');
}

-- The greatest number of a revision, 0 if there is none.
abbrev pub newest : List RevisionRecord → ℕ
newest [] = 0
newest (r ∷ rest) = max r.revision (newest rest)

abbrev number_of : Option RevisionRecord → ℕ
number_of none = 0
number_of (some r) = r.revision

latest_revision-newest :
    (revisions : List RevisionRecord) → number_of (latest_revision revisions) ≡ newest revisions
unfolding latest_revision
latest_revision-newest [] = refl
latest_revision-newest (r ∷ rest) = ground (arith, latest_revision-newest rest)

read_bytes-ok :
    (p : Platform) (w : World) (raw : Option Bytes) → (read_bytes p w).0 ≡ ok raw → raw ≡ w.file
unfolding read_bytes assert_safe ask_layout
read_bytes-ok p w raw h = ground (arith, h)

ok_injective : {A : Type 0} {a b : A} → ok a ≡ ok b → a ≡ b
ok_injective h = cc

module _ (codec : Codec) (sha256 : Bytes → String)
    (validator : Bytes → Attempt ManagedConfiguration) (backup_path : String → ℕ → String)
    (p : Platform) (services : Services) where
  -- The current revision is the newest of the history, and its digest that of the file.
  abbrev pub IsCurrent : World → Current → Type 0
  IsCurrent w found =
      (found.0 ≡ newest w.tables.revisions) × (found.1 ≡ optional_digest sha256 w.file)

  current_of-ok :
      (row : Option RevisionRecord) (raw : Option Bytes) (w : World) (found : Current)
      → (current_of codec sha256 validator backup_path p services row raw w).0 ≡ ok found
      → (found.0 ≡ number_of row) × (found.1 ≡ optional_digest sha256 raw)
  unfolding current_of checked_record
  current_of-ok none none w found h = ground (arith, h)
  current_of-ok none (some raw) w found h = ground (arith, h)
  current_of-ok (some row) none w found h = ground (arith, h)
  current_of-ok (some row) (some raw) w found h = ground (arith, h)

  latest_found :
      (row : Option RevisionRecord) (w : World)
      → (session p (λ t. (ok (latest_revision t.revisions), t)) w).0 ≡ ok row
      → number_of row ≡ newest w.tables.revisions
  unfolding session
  latest_found row w h =
      let same : latest_revision w.tables.revisions ≡ row = ok_injective (
        session-ok (p.commits w.calls) w (ok (latest_revision w.tables.revisions), w.tables) row
          h) in
      ap number_of (sym same) ∙ latest_revision-newest w.tables.revisions

  pub verified_current-Ending :
      (before w : World)
      → Held before (tt, w)
      → Ending
          (Found (IsCurrent before) before)
          before
          (verified_current codec sha256 validator backup_path p services w)
  unfolding verified_current
  verified_current-Ending before w held =
      let Q : Current → World → Type 0 = Found (IsCurrent before) before in
      let latest : Action (Option RevisionRecord) =
        session p λ t. (ok (latest_revision t.revisions), t) in
      let rest : Option RevisionRecord → Option Bytes → Action Current =
        current_of codec sha256 validator backup_path p services in
      Ending-bind Q before w latest (λ row. read_bytes p >>= rest row) held
        (Holds-latest_revision codec sha256 validator backup_path p services)
        λ row h held'.
          Ending-bind Q before (latest w).1 (read_bytes p) (rest row) held' (Holds-read_bytes p)
            λ raw h' held''.
              let start = (read_bytes p (latest w).1).1 in
              found_of row raw start held'' (latest_found row w h ∙ ap newest held.1)
                (read_bytes-ok p (latest w).1 raw h' ∙ held'.0)
    where
      found_of :
          (row : Option RevisionRecord) (raw : Option Bytes) (start : World)
          → Held before (tt, start)
          → number_of row ≡ newest before.tables.revisions
          → raw ≡ before.file
          → Ending
              (λ found end. Held before (tt, end) × IsCurrent before found)
              before
              (current_of codec sha256 validator backup_path p services row raw start)
      found_of row raw start held' n f =
          let end = current_of codec sha256 validator backup_path p services row raw start in
          let held'' =
            Held-trans before start end.1 held'
              ((Holds-current_of codec sha256 validator backup_path p services row raw).at start) in
          elim (Attempt-cases end.0) [
            | inr (e, h) ↦ rw h held''
            | inl (found, h) ↦
                let (a, b) = current_of-ok row raw start found h in
                rw h (held'', (a ∙ n, b ∙ ap (optional_digest sha256) f))
          ]
