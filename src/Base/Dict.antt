-- ===== src/Base/Dict.antt =====
-- Python's `dict` with text keys, and a table with a text primary key: an association list in the
-- order of first insertion, where writing an old key keeps its place.
use Prim.Native.String.{String}
use mathlib.Core.Path.{◌≡◌, refl, ap}
use mathlib.Core.Logic.{inl, inr}
use mathlib.Core.Option.{Option, none, some}
use mathlib.Core.List.{List, [], ◌∷◌}
use native.Mathlib.Omega.{arith}
use text.Mathlib.TextEquality.{eq_iff}
use text.Mathlib.TextPositions.{eq_refl}
use ai_agent_desktop.Base.Tests.{str_eq, if◌then◌else◌, Bool-cases}

abbrev pub Dict {ℓ} : Type ℓ → Type ℓ
Dict V = List (String × V)

module _ {ℓ} {V : Type ℓ} where
  unfoldable pub lookup : String → Dict V → Option V
  lookup key [] = none
  lookup key ((key', v) ∷ rest) = if str_eq key' key then some v else lookup key rest

  unfoldable pub insert : String → V → Dict V → Dict V
  insert key v [] = (key, v) ∷ []
  insert key v ((key', old) ∷ rest) =
      if str_eq key' key then (key, v) ∷ rest else (key', old) ∷ insert key v rest

  pub lookup-insert :
      (written key : String) (v : V) (dict : Dict V)
      → lookup key (insert written v dict)
        ≡ (if str_eq written key then some v else lookup key dict)
  unfolding lookup insert
  lookup-insert written key v [] = refl
  lookup-insert written key v ((key', old) ∷ rest) =
      let later = lookup-insert written key v rest in
      ground (arith, later, eq_iff key' written, eq_iff key' key, eq_iff written key)

  pub lookup-insert_self :
      (key : String) (v : V) (dict : Dict V) → lookup key (insert key v dict) ≡ some v
  lookup-insert_self key v dict = simp (lookup-insert, eq_refl)

  pub insert_same :
      (key : String) (v : V) (dict : Dict V) → lookup key dict ≡ some v → insert key v dict ≡ dict
  unfolding lookup insert
  insert_same key v [] h = ground arith
  insert_same key v ((key', old) ∷ rest) h = elim (Bool-cases (str_eq key' key)) [
    | inl e ↦ ground (arith, e, h, eq_iff key' key)
    | inr e ↦
        let later = insert_same key v rest (ground (arith, e, h)) in
        rw e (ap (λ d. (key', old) ∷ d) later)
  ]
