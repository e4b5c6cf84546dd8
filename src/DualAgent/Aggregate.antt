-- ===== src/DualAgent/Aggregate.antt =====
-- src/dual-agent-fallback/aggregate.py: the results of a task, by agent.
use Prim.Native.String.{◌++◌}
use mathlib.Core.List
use ai_agent_desktop.Base.{
  ℕ, String, Bool, false, not, ◌&&◌, ◌||◌, List, [], ◌∷◌, map, is_empty, contains, str_eq,
  if◌then◌else◌,
}
use ai_agent_desktop.Base.Dict.{Dict, insert}
use ai_agent_desktop.DualAgent.Delegator.{DelegateStatus, success, failed, timeout, DelegateResult}

pub record AgentResults : Type 0 where
  pub successes : Dict DelegateResult
  pub failures : Dict DelegateResult
  pub timed_out : Dict DelegateResult
  pub stopped_reason : String

abbrev pub no_results : AgentResults
no_results = record { successes = []; failures = []; timed_out = []; stopped_reason = "" }

add_as : DelegateStatus → AgentResults → DelegateResult → AgentResults
add_as success rs r = record rs { successes = insert r.agent r rs.successes }
add_as timeout rs r = record rs { timed_out = insert r.agent r rs.timed_out }
add_as failed rs r = record rs { failures = insert r.agent r rs.failures }

unfoldable pub add : AgentResults → DelegateResult → AgentResults
unfolding add_as
add rs r = add_as r.status rs r

abbrev pub keys {ℓ} : {V : Type ℓ} → Dict V → List String
keys [] = []
keys ((k, v) ∷ m) = k ∷ keys m

-- The loop of `all_agents` over its list `seen`.
unfoldable pub add_unseen : List String → List String → List String
add_unseen seen [] = seen
add_unseen seen (a ∷ rest) =
    add_unseen (if contains seen a then seen else List.◌++◌ seen (a ∷ [])) rest

unfoldable pub all_agents : AgentResults → List String
unfolding add_unseen
all_agents rs =
    add_unseen [] (List.◌++◌ (List.◌++◌ (keys rs.successes) (keys rs.failures)) (keys rs.timed_out))

unfoldable pub success_agents : AgentResults → List String
success_agents rs = keys rs.successes

unfoldable pub failed_agents : AgentResults → List String
failed_agents rs = List.◌++◌ (keys rs.failures) (keys rs.timed_out)

unfoldable pub has_any_success : AgentResults → Bool
has_any_success rs = not (is_empty rs.successes)

unfoldable pub all_failed : AgentResults → Bool
all_failed rs = is_empty rs.successes && (not (is_empty rs.failures) || not (is_empty rs.timed_out))

unfoldable pub recommend_retry : AgentResults → Bool
unfolding all_failed
recommend_retry rs =
    if all_failed rs then false else not (is_empty rs.failures) || not (is_empty rs.timed_out)

unfoldable pub success_replies : AgentResults → Dict String
success_replies rs = map (λ (p : String × DelegateResult). (p.0, p.1.reply)) rs.successes

-- `show_seconds` is Python's formatting `{elapsed:.0f}`.
failure_line : String × DelegateResult → String
failure_line (a, r) = a ++ " 失败：" ++ (if str_eq r.error "" then "未知原因" else r.error)

timeout_line : (ℕ → String) → String × DelegateResult → String
timeout_line show_seconds (a, r) = a ++ " 超时（" ++ show_seconds r.elapsed ++ "s）"

unfoldable pub failure_summary : (ℕ → String) → AgentResults → List String
unfolding failure_line timeout_line
failure_summary show_seconds rs =
    List.◌++◌ (map failure_line rs.failures) (map (timeout_line show_seconds) rs.timed_out)
