-- ===== src/DualAgent/Delegator.antt =====
-- src/dual-agent-fallback/delegator.py: the seam between the runner and the relay.
use ai_agent_desktop.Base.{ℕ, String, Bool, true, false}

pub data DelegateStatus : Type 0 where
  success failed timeout : DelegateStatus

-- `elapsed` is in milliseconds; `meta` is never read by the runner and is left out.
pub record DelegateResult : Type 0 where
  pub status : DelegateStatus
  pub agent : String
  pub reply : String
  pub error : String
  pub turn : ℕ
  pub elapsed : ℕ

is_success : DelegateStatus → Bool
is_success success = true
is_success failed = false
is_success timeout = false

-- The property `ok`.
unfoldable pub is_ok : DelegateResult → Bool
unfolding is_success
is_ok r = is_success r.status

-- What a call of the injected delegator comes to: a result, or an exception with its text.
pub data Outcome : Type 0 where
  returned : DelegateResult → Outcome
  raised : String → Outcome

-- The injected delegator acts on a world of its own, which it may change:
-- `delegator(agent, message, turn)`.
abbrev pub Delegator : Type 0 → Type 0
Delegator W = W → String → String → ℕ → W × Outcome
