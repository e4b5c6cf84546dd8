-- ===== src/DualAgent/Fuse.antt =====
-- What the fuse of dual-agent-fallback/guard.py detects, and what aggregate.py advises.
use ai_agent_desktop.Base.{
  ◌+◌, ◌-◌, ◌≤◌, String, ◌≡◌, ◌≢◌, ◌↔◌, refl, sym, ap, true, false, not, ◌&&◌, List, [], ◌∷◌, ◌++◌,
  arith, length, drop, length-append, ltb, str_eq, ◌∙◌, eq_refl, eq_iff, is_empty,
}
use ai_agent_desktop.Base.Dict.{Dict}
use ai_agent_desktop.DualAgent.Guard.{is_ping_pong}
use ai_agent_desktop.DualAgent.Aggregate.{
  AgentResults, recommend_retry, has_any_success, failed_agents, keys,
}

module _ {ℓ} {A : Type ℓ} where
  drop-append : (xs ys : List A) → drop (length xs) (xs ++ ys) ≡ ys
  drop-append [] ys = refl
  drop-append (x ∷ xs) ys = drop-append xs ys

  -- A list of four or more ends in four elements.
  last_four :
      (xs : List A)
      → 4 ≤ length xs
      → (pre : List A) × (a b c d : A) × (xs ≡ pre ++ a ∷ b ∷ c ∷ d ∷ [])
  last_four [] h = absurd (omega arith)
  last_four (a ∷ []) h = absurd (omega arith)
  last_four (a ∷ b ∷ []) h = absurd (omega arith)
  last_four (a ∷ b ∷ c ∷ []) h = absurd (omega arith)
  last_four (a ∷ b ∷ c ∷ d ∷ []) h = ([], a, b, c, d, refl)
  last_four (a ∷ b ∷ c ∷ d ∷ e ∷ xs) h =
      let (pre, w, x, y, z, same) = last_four (b ∷ c ∷ d ∷ e ∷ xs) (omega arith) in
      (a ∷ pre, w, x, y, z, ap (λ l. a ∷ l) same)

-- The test on a sequence whose last four are known.
ping_pong_at :
    (pre : List String) (a b c d : String)
    → is_ping_pong (pre ++ a ∷ b ∷ c ∷ d ∷ []) ≡ (str_eq a c && str_eq b d && not (str_eq a b))
unfolding is_ping_pong
ping_pong_at pre a b c d =
    let last = a ∷ b ∷ c ∷ d ∷ [] in
    let long : length (pre ++ last) ≡ length pre + 4 = length-append pre last in
    let start : length pre + 4 - 4 ≡ length pre = omega arith in
    let enough : ltb (length pre + 4) 4 ≡ false = ground arith in
    rw (long, enough, start, drop-append pre last)

ping_pong_long : (seq : List String) → is_ping_pong seq ≡ true → 4 ≤ length seq
unfolding is_ping_pong
ping_pong_long seq h = ground arith

alternation :
    (a b c d : String)
    → (str_eq a c && str_eq b d && not (str_eq a b)) ≡ true
    → (c ≡ a) × (d ≡ b) × (a ≢ b)
alternation a b c d h =
    (ground (arith, eq_iff a c), ground (arith, eq_iff b d), ground (arith, eq_iff a b))

-- The fuse reports a ping-pong exactly when the last four speakers alternate between two different
-- agents.
pub ping_pong_iff :
    (seq : List String)
    → (is_ping_pong seq ≡ true)
      ↔ ((pre : List String) × (a b : String) × (seq ≡ pre ++ a ∷ b ∷ a ∷ b ∷ []) × (a ≢ b))
ping_pong_iff seq = (to, from)
  where
    to :
        is_ping_pong seq ≡ true
        → (pre : List String) × (a b : String) × (seq ≡ pre ++ a ∷ b ∷ a ∷ b ∷ []) × (a ≢ b)
    to h =
        let (pre, a, b, c, d, e) = last_four seq (ping_pong_long seq h) in
        let same : (str_eq a c && str_eq b d && not (str_eq a b)) ≡ true =
          sym (ping_pong_at pre a b c d) ∙ ap is_ping_pong (sym e) ∙ h in
        let (p, q, ne) = alternation a b c d same in (pre, a, b, rw (p, q) at e, ne)

    from :
        ((pre : List String) × (a b : String) × (seq ≡ pre ++ a ∷ b ∷ a ∷ b ∷ []) × (a ≢ b))
        → is_ping_pong seq ≡ true
    from (pre, a, b, e, ne) =
        rw (e, ping_pong_at pre a b a b) (ground (arith, eq_iff a b, eq_refl a, eq_refl b))

is_empty-keys {ℓ} :
    {V : Type ℓ} (f t : Dict V) → is_empty (keys f ++ keys t) ≡ (is_empty f && is_empty t)
is_empty-keys [] [] = refl
is_empty-keys [] ((k, v) ∷ t) = refl
is_empty-keys ((k, v) ∷ f) t = refl

-- A retry is advised exactly when some agent succeeded and some agent failed or timed out.
pub recommend_retry_lem :
    (rs : AgentResults)
    → recommend_retry rs ≡ (has_any_success rs && not (is_empty (failed_agents rs)))
unfolding recommend_retry has_any_success failed_agents
recommend_retry_lem rs = ground (arith, is_empty-keys rs.failures rs.timed_out)
