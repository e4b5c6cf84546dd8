-- ===== src/Tests/Lease.antt =====
-- The leases of control_plane/telegram/update_lease.py at concrete inputs.
use ai_agent_desktop.Base.{
  ℕ, ◌+◌, ◌≡◌, inl, refl, true, false, none, some, List, [], ◌∷◌, arith, eq_iff,
}
use ai_agent_desktop.Base.Dict.{Dict, lookup, insert}
use ai_agent_desktop.Errors.{err}
use ai_agent_desktop.Lease.Model.{
  hermes_runtime, cc_connect_runtime, LeaseRecord, World, acquired_row, acquire, acquire_runtime,
  release_runtime, runtime_owner, lease_conflict, get, rollback, release,
}
use ai_agent_desktop.Lease.Exclusion.{acquire_excludes}
use ai_agent_desktop.Lease.Fencing.{
  Request, getting, acquiring, beating, releasing, serve_all, Follows, serve_all-Follows,
}
use ai_agent_desktop.Lease.Runtime.{is_held, is_owned, acquire_runtime_all_or_none}
use ai_agent_desktop.Lease.Granted.{runtime_holds, acquire_runtime_grants}
use ai_agent_desktop.Lease.Freed.{release_runtime_frees}

abbrev microseconds : ℕ → ℕ
microseconds n = n

abbrev no_leases : World
no_leases = record { table = []; ticks = 0 }

abbrev hermes_row : LeaseRecord
hermes_row = acquired_row hermes_runtime "op-1" 1 60 0 none

-- The slot "claude" is held by "op-1" for its runtime, until a minute has passed.
abbrev claude_held : World
claude_held = record {
  table = ("claude", record hermes_row { owner = cc_connect_runtime }) ∷ [];
  ticks = 1;
}

abbrev given_revisions : Dict ℕ
given_revisions = ("hermes", 1) ∷ ("claude", 1) ∷ []

acquire_excludes_example :
    acquire microseconds "hermes" cc_connect_runtime "op-2" 1 60
      (acquire microseconds "hermes" hermes_runtime "op-1" 1 60 no_leases).1
    ≡ (
      err (lease_conflict "hermes"),
      record (acquire microseconds "hermes" hermes_runtime "op-1" 1 60 no_leases).1 {
        ticks = (acquire microseconds "hermes" hermes_runtime "op-1" 1 60 no_leases).1.ticks + 1;
      },
    )
unfolding acquire acquired_row lookup
acquire_excludes_example =
    acquire_excludes microseconds "hermes" hermes_runtime cc_connect_runtime "op-1" "op-2" 1 1 60 60
      no_leases (acquire microseconds "hermes" hermes_runtime "op-1" 1 60 no_leases).1
      (record { bot_slot = "hermes"; row = hermes_row }) (ground arith)
      (ground (arith, eq_iff "op-1" "op-2")) refl refl (omega arith)

abbrev requests : List Request
requests =
    acquiring "hermes" hermes_runtime "op-1" 1 60
    ∷ beating "hermes" "op-1" (some 5) 60
    ∷ releasing "hermes" (some "op-1") "stopped"
    ∷ getting "hermes"
    ∷ []

serve_all-Follows_example :
    Follows
      (lookup "hermes" no_leases.table)
      (lookup "hermes" (serve_all microseconds requests no_leases).table)
serve_all-Follows_example = serve_all-Follows microseconds requests no_leases "hermes"

-- The slot "codex" is already held by "op-2", and "claude" by the other operation.
abbrev both_held : World
both_held = record {
  table =
      ("codex", record hermes_row { owner = cc_connect_runtime; operation_id = some "op-2" })
      ∷ claude_held.table;
  ticks = 1;
}

acquire_runtime_all_or_none_example : is_held "op-2" (lookup "codex" both_held.table) ≡ true
unfolding acquire_runtime lookup acquire get insert rollback release
acquire_runtime_all_or_none_example =
    acquire_runtime_all_or_none microseconds ("hermes" ∷ "claude" ∷ []) "op-2" given_revisions
      both_held (lease_conflict "claude") "codex" refl refl

acquire_runtime_grants_example :
    is_owned (runtime_owner "hermes") "op-1" (
      lookup "hermes"
        (acquire_runtime microseconds
          ("hermes" ∷ "claude" ∷ [])
          "op-1"
          given_revisions
          no_leases).1.table)
    ≡ true
unfolding acquire_runtime lookup acquire get insert
acquire_runtime_grants_example =
    acquire_runtime_grants microseconds ("hermes" ∷ "claude" ∷ []) "op-1" given_revisions no_leases
      "hermes" refl (inl refl)

release_runtime_frees_example :
    runtime_holds "claude" (
      lookup "claude"
        (release_runtime microseconds ("hermes" ∷ "claude" ∷ []) "stopped" claude_held).table)
    ≡ false
release_runtime_frees_example =
    release_runtime_frees microseconds ("hermes" ∷ "claude" ∷ []) "stopped" claude_held "claude"
      (inl refl)
