-- ===== src/Lib.antt =====
-- A model of the core of AI Agent Desktop, a control plane and a set of adapters that run several
-- command-line agents on one machine and let them work together in a chat.
--
-- DualAgent: src/dual-agent-fallback, the library that lets several agents work on one task.
--   Delegator  delegator.py: a result, and the injected delegator, here any function on a world of its
--              own that returns a result or raises.
--   Guard      guard.py: HopLimit, the fuse against runaway delegation.
--   Aggregate  aggregate.py: AgentResults.
--   Runner     runner.py: run_sequential, run_parallel and _delegate_one. The loops are structural
--              recursion on the steps, the targets and the futures. as_completed is a parameter that
--              gives the order in which the futures end.
--   Sequence, Gather and Fuse hold the theorems.
--
-- Lease: control-plane/control_plane/telegram/update_lease.py, which owner may poll a bot's updates.
--   Model      every method of TelegramUpdateLeaseService. A session of the database is one step; a
--              raise writes nothing. The clock is any function from the number of calls to a time.
--   Exclusion, Fencing, Runtime, Granted and Freed hold the theorems.
--
-- Telegram: control-plane/control_plane/telegram/binding_service.py, the binding of the three bots to
-- an operator and a group.
--   Rows       the rows of a session, _recalculate, _expire_if_needed and _audit.
--   Command    the texts of commands: _extract_code, _is_group_start_fallback and the commands of
--              _created_response. A text is the list of its code points.
--   Payload    the updates of the Bot API as records of optional fields, and the tests on them.
--   Applied    what an update that passed the checks does to the rows.
--   Updates    _process_update and _process_membership_update.
--   Session    the answers, the errors and the rows that the methods write.
--   Service    create, resume, get, cancel, _set_state and recovery_probe. The credential behind the
--              digest of a code is taken to resolve.
--   Poll       poll, which acquires, moves on and releases a lease of Lease.Model around the updates.
--   Policy     the abstract session: who is bound where, and the steps a person can make.
--   Simulation, Refinement, Strangers, Sound, Invariant, Kept, Lifetime, Roundtrip, Released,
--   Remembered, Replayed and Idempotent hold the theorems. Lifetime has the relation of the states
--   that a session can come to.
--
-- Operations: the persisted operations of the control plane.
--   Records    the rows of control_plane/persistence/models.py.
--   Store      control_plane/application/operation_store.py: create, get, transition and
--              recover_on_startup.
--   Executor   control_plane/operations/executor.py: _execute, _execute_locked, _finish_after_handler,
--              _fail, _fail_unregistered, _audit and the safe checkpoint. A handler is any function of
--              its context and the database, so it also stands for what other threads write while it
--              runs. It calls Store for every change of status.
--   Recovery   the recovery of the executor at startup, with the probes as any functions that return
--              and write nothing; a probe that raises, or that writes rows, is not modelled here.
--   Queue      its register, submit, _fill_queue and _worker. A worker takes an operation and finishes
--              it in two turns, between which others may act.
--   Lifecycle, Completion, Canceled, Contract, Invariant, Decision, Restart and Workers hold the
--   theorems.
--
-- EventLog: control-plane/control_plane/application/event_log.py, the journal and its subscribers.
--   Journal    emit, subscribe and unsubscribe.
--   Replay     holds the theorems.
--
-- Hermes: src/hermes-adapter, the plugin of the Hermes gateway.
--   Policy     decide of policy.py, and agent_for_username of config.py. What str and re make of texts
--              is a parameter.
--   Relay      relay_client.py: send with its guard. What the command comes to is a parameter.
--   Orchestrator  orchestrator.py: the state of a task, one delegation by Relay, the fuses, the choice
--              of the speaker. The host of the plugin is a record of what lies outside.
--   Modes      _run_execution, _run_discussion and the end of _run.
--   Routing, Signals, Bounded and Reworks hold the theorems.
--
-- Lifecycle: control-plane/control_plane/lifecycle/port_ownership.py, the ports of managed programs.
--   Ports      PortOwnershipInspector. Whether a port can be bound is a parameter.
--   Chosen     holds the theorem.
--
-- Configuration: control-plane/control_plane/configuration, the managed configuration of cc-connect.
--   Records    models.py and the rows of control_plane/persistence/models.py.
--   Template   templates.py. What json, datetime, tomllib and pydantic compute is the record Codec.
--   Disk       the managed file, the backups and the tables as a world, and actions that may raise.
--              The Platform answers the n-th call of the operating system, whatever it is.
--   Store, Commit  config_store.py: every method of ConfigurationStore but exists.
--   History    the sessions of control_plane/persistence/session.py and the rows of _record_commit.
--   Refusals, Service  service.py: owners, _verified_current, _context_digest and the checks of a plan.
--              It asks Lifecycle.Ports whether the port is free.
--   Execute    execute_plan with its handlers. It writes the operation by Operations.Store and
--              Operations.Executor.
--   Planning   create_plan, and Confirm confirm_plan, which creates the operation by Operations.Store.
--   Recover    recovery_probe, which says what becomes of an interrupted execution.
--   Atomic, Committed, Kept, Recoverable, Sessions, Handled, Applied, Outcome, Preflight, Executed,
--   Confirmed, Current, Admitted, Planned and Justified hold the theorems.
--   While a method runs no one else writes the file or the tables.
--
-- Errors holds the error shown to a user and the result of a method that may raise it; Base the names
-- that all share: numbers, texts, options, lists and dictionaries in the order of insertion.
--
-- The loops are bounded by a list or a range, but for the two of Hermes.Modes, which run on fuel: a
-- turn of a discussion is a hop, of which forty are allowed, and a round of an execution raises a count
-- that stops it at two, so 41 turns and three rounds leave no fuel wanting. Numbers are natural numbers,
-- but the ids of chats and users, which are integers; the one counter that goes down, the stalls of a
-- discussion, stops at 0 in the source too. Python's integers do not overflow.
--
-- Not modelled: the locks of the components, starting and joining threads, the HTTP interface, the
-- installer, the processes, and all that only talks to the operating system or to a service; the
-- texts of logs; serialisation to JSON, for which a column holds the value itself.
pub mod Base
pub mod Errors
pub mod Configuration
pub mod DualAgent
pub mod Lease
pub mod Operations
pub mod EventLog
pub mod Hermes
pub mod Telegram
pub mod Lifecycle
mod Tests
