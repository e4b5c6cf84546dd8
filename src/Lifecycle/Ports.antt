-- ===== src/Lifecycle/Ports.antt =====
-- `PortOwnershipInspector` of control_plane/lifecycle/port_ownership.py. Whether a socket can be
-- bound and which connections there are is the operating system's answer.
use ai_agent_desktop.Base.{
  ℕ, zero, suc, ◌+◌, String, Bool, true, false, not, ◌&&◌, ◌||◌, Option, none, some, List, [], ◌∷◌,
  leb, ◌==◌, str_eq, if◌then◌else◌,
}
use ai_agent_desktop.Errors.{UserFacingError, user_error, Result, ok, err}

abbrev pub controlled_port_start : ℕ
controlled_port_start = 59000

abbrev pub controlled_port_end : ℕ
controlled_port_end = 59999

-- `port in RESERVED_PORTS`
unfoldable pub is_reserved : ℕ → Bool
is_reserved port = port == 58080 || port == 8423 || port == 9810 || port == 9820

abbrev pub range_exhausted : UserFacingError
range_exhausted =
    user_error "MANAGED_PORT_RANGE_EXHAUSTED"
      "No free loopback port remains in the product-controlled range." true
      ("close_unused_product_instances" ∷ "retry_configuration_plan" ∷ [])

abbrev pub non_loopback : UserFacingError
non_loopback =
    user_error "NON_LOOPBACK_LISTEN_FORBIDDEN"
      "Product-managed cc-connect may listen only on 127.0.0.1." false
      ("create_new_configuration_plan" ∷ [])

abbrev pub outside_range : UserFacingError
outside_range =
    user_error "MANAGED_PORT_OUTSIDE_CONTROLLED_RANGE"
      "Requested port is outside the product-controlled range." false
      ("create_new_configuration_plan" ∷ [])

-- `validate_controlled_port`: what it raises.
unfoldable pub validate_controlled_port : String → ℕ → Option UserFacingError
unfolding is_reserved
validate_controlled_port host port =
    if not (str_eq host "127.0.0.1")
    then some non_loopback
    else if not (leb controlled_port_start port && leb port controlled_port_end) || is_reserved port
    then some outside_range
    else none

-- A connection of the table, its status in upper case.
pub record Connection : Type 0 where
  pub status : String
  pub laddr : Option (String × ℕ)
  pub pid : Option ℕ

pub data PortStatus : Type 0 where
  free owned conflict unknown : PortStatus

pub record PortOwnershipEvidence : Type 0 where
  pub listen_port : ℕ
  pub status : PortStatus
  pub owner_pid : Option ℕ
  pub expected_pid : Option ℕ

-- The connection listens on the port of the host.
unfoldable pub listens : String → ℕ → Connection → Bool
listens host port c = elim c.laddr [
  | none ↦ false
  | some (local_host, local_port) ↦
      str_eq c.status "LISTEN"
      && (local_port == port)
      && (str_eq local_host host || str_eq local_host "0.0.0.0")
]

abbrev pub is_member : ℕ → List ℕ → Bool
is_member pid [] = false
is_member pid (p ∷ rest) = pid == p || is_member pid rest

abbrev pub add_pid : Option ℕ → List ℕ → List ℕ
add_pid none pids = pids
add_pid (some pid) pids = if is_member pid pids then pids else pid ∷ pids

-- `owner_pids`, a set.
unfoldable pub owner_pids : String → ℕ → List Connection → List ℕ
unfolding listens
owner_pids host port [] = []
owner_pids host port (c ∷ rest) =
    let owners = owner_pids host port rest in
    if listens host port c then add_pid c.pid owners else owners

-- `expected_pid is not None and owner_pids == {expected_pid}`
abbrev pub is_only_owner : Option ℕ → List ℕ → Bool
is_only_owner (some pid) (p ∷ []) = p == pid
is_only_owner _ _ = false

-- The one owner, if there is one.
abbrev pub single : List ℕ → Option ℕ
single (p ∷ []) = some p
single _ = none

module _ (can_bind : String → ℕ → Bool) where
  unfoldable pub is_available : String → ℕ → Result Bool
  unfolding validate_controlled_port
  is_available host port = elim (validate_controlled_port host port) [
    | some e ↦ err e
    | none ↦ ok (can_bind host port)
  ]

  abbrev pub is_ok_true : Result Bool → Bool
  is_ok_true (ok true) = true
  is_ok_true _ = false

  -- The loop of `choose_available` over the ports from `port` on; no port of its range is refused.
  unfoldable pub choose_from : ℕ → ℕ → Result ℕ
  unfolding is_reserved is_available
  choose_from zero port = err range_exhausted
  choose_from (suc n) port =
      let rest = choose_from n (port + 1) in
      if not (is_reserved port) && is_ok_true (is_available "127.0.0.1" port) then ok port else rest

  unfoldable pub choose_available : Result ℕ
  choose_available = choose_from 1000 controlled_port_start

  -- The evidence from the set of owners.
  unfoldable pub evidence_of : String → ℕ → Option ℕ → List ℕ → PortOwnershipEvidence
  evidence_of host port expected [] = record {
    listen_port = port;
    status = if can_bind host port then free else unknown;
    owner_pid = none;
    expected_pid = expected;
  }
  evidence_of host port expected (p ∷ rest) =
      if is_only_owner expected (p ∷ rest)
      then record {
        listen_port = port;
        status = owned;
        owner_pid = expected;
        expected_pid = expected;
      }
      else record {
        listen_port = port;
        status = conflict;
        owner_pid = single (p ∷ rest);
        expected_pid = expected;
      }

  -- `inspect`; the table of connections is `none` if it cannot be read.
  unfoldable pub inspect :
      Option (List Connection) → String → ℕ → Option ℕ → Result PortOwnershipEvidence
  unfolding validate_controlled_port owner_pids evidence_of
  inspect connections host port expected = elim (validate_controlled_port host port) [
    | some e ↦ err e
    | none ↦ elim connections [
      | none ↦ ok (record {
        listen_port = port;
        status = unknown;
        owner_pid = none;
        expected_pid = expected;
      })
      | some table ↦ ok (evidence_of host port expected (owner_pids host port table))
    ]
  ]
