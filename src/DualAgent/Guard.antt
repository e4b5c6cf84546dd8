-- ===== src/DualAgent/Guard.antt =====
-- src/dual-agent-fallback/guard.py: the fuse against runaway delegation.
use ai_agent_desktop.Base.{
  ℕ, ◌+◌, ◌-◌, String, Bool, false, not, ◌&&◌, Option, some, List, [], ◌∷◌, ◌++◌, length, drop, leb,
  ltb, str_eq, opt_str_eq, if◌then◌else◌,
}

-- What `_hash_text` takes from Python: `str.strip`, `str.lower` and the MD5 hex digest.
pub record TextHash : Type 0 where
  pub strip : String → String
  pub lower : String → String
  pub md5_hex12 : String → String

unfoldable pub hash_text : TextHash → String → String
hash_text t text = t.md5_hex12 (t.lower (t.strip text))

pub record HopLimit : Type 0 where
  pub max_hops : ℕ
  pub max_repeat : ℕ
  pub hop_count : ℕ
  pub speaker_sequence : List String
  pub last_hash : Option String
  pub consecutive_repeat : ℕ

unfoldable pub hop_record : TextHash → HopLimit → String → String → HopLimit
hop_record t g agent reply =
    let h = hash_text t reply in
    let counted = record g {
      hop_count = g.hop_count + 1;
      speaker_sequence = g.speaker_sequence ++ agent ∷ [];
    } in
    if opt_str_eq (some h) g.last_hash
    then record counted { consecutive_repeat = g.consecutive_repeat + 1 }
    else record counted { consecutive_repeat = 0; last_hash = some h }

-- `seq[-4:]`, when there are four.
alternates : List String → Bool
alternates (a ∷ b ∷ c ∷ d ∷ []) = str_eq a c && str_eq b d && not (str_eq a b)
alternates _ = false

unfoldable pub is_ping_pong : List String → Bool
unfolding alternates
is_ping_pong seq = if ltb (length seq) 4 then false else alternates (drop (length seq - 4) seq)

unfoldable pub would_exceed : HopLimit → Bool
would_exceed g = leb g.max_hops g.hop_count

unfoldable pub is_stalled : HopLimit → Bool
is_stalled g = leb g.max_repeat g.consecutive_repeat
