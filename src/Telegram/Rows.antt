-- ===== src/Telegram/Rows.antt =====
-- The rows of a binding session and what `_recalculate` and `_expire_if_needed` of
-- control_plane/telegram/binding_service.py make of them. The tables are keyed by the session
-- first, so the rows of one session stand together. Times are microseconds; within one database
-- session every read of the clock shows the same time.
use ai_agent_desktop.Base.{
  ℕ, ◌+◌, String, Bool, true, false, not, ◌&&◌, ◌||◌, Option, none, some, List, [], ◌∷◌, ◌++◌, leb,
  ltb, if◌then◌else◌,
}
use ai_agent_desktop.Base.Dict.{Dict, insert}
use ai_agent_desktop.Base.Int.{ℤ, opt_int_eq}

-- A text as the list of its code points.
abbrev pub Text : Type 0
Text = List ℕ

pub data BindingState : Type 0 where
  created credentials_verified waiting_private private_verified waiting_group : BindingState
  partially_bound group_consistency_pending completed canceled expired conflict : BindingState
  failed : BindingState

pub data SlotStatus : Type 0 where
  pending bound rejected : SlotStatus

abbrev pub is_bound : SlotStatus → Bool
is_bound bound = true
is_bound _ = false

-- The type of a chat; `other` is any further word.
pub data ChatType : Type 0 where
  private_chat group supergroup channel other : ChatType

pub record SessionRecord : Type 0 where
  pub code_digest : String
  pub state : BindingState
  pub expires_at : ℕ
  pub operator_user_id : Option ℤ
  pub group_chat_id : Option ℤ
  pub group_title : Option Text
  pub group_type : Option ChatType
  pub revision : ℕ
  pub created_at : ℕ
  pub updated_at : ℕ
  pub completed_at : Option ℕ
  pub canceled_at : Option ℕ
  pub failure_code : Option String

pub record SlotRecord : Type 0 where
  pub bot_id : ℤ
  pub username : String
  pub credential_revision : ℕ
  pub private_status : SlotStatus
  pub group_status : SlotStatus
  pub private_user_id : Option ℤ
  pub group_chat_id : Option ℤ
  pub group_title : Option Text
  pub group_type : Option ChatType
  pub private_update_id : Option ℕ
  pub group_update_id : Option ℕ
  pub last_update_id : Option ℕ
  pub updated_at : ℕ

pub record GroupRecord : Type 0 where
  pub operator_user_id : Option ℤ
  pub group_chat_id : Option ℤ
  pub group_title : Option Text
  pub group_type : Option ChatType
  pub binding_revision : ℕ
  pub created_at : ℕ

-- `data_json` is left out: it repeats the update or the reason.
pub record AuditRecord : Type 0 where
  pub slot : Option String
  pub event_type : String
  pub created_at : ℕ

pub record Rows : Type 0 where
  pub binding : SessionRecord
  pub slots : Dict SlotRecord
  pub groups : Dict GroupRecord
  pub audits : List AuditRecord

unfoldable pub audit : ℕ → Option String → String → Rows → Rows
audit now slot event rows = record rows {
  audits = rows.audits ++ record { slot = slot; event_type = event; created_at = now } ∷ [];
}

-- `_expire_if_needed`
abbrev pub may_expire : BindingState → Bool
may_expire completed = false
may_expire canceled = false
may_expire expired = false
may_expire _ = true

unfoldable pub expire_if_needed : ℕ → SessionRecord → SessionRecord
expire_if_needed now b =
    if leb b.expires_at now && may_expire b.state
    then record b { state = expired; updated_at = now; revision = b.revision + 1 }
    else b

abbrev pub private_count : Dict SlotRecord → ℕ
private_count [] = 0
private_count ((k, r) ∷ rest) = (if is_bound r.private_status then 1 else 0) + private_count rest

abbrev pub group_count : Dict SlotRecord → ℕ
group_count [] = 0
group_count ((k, r) ∷ rest) = (if is_bound r.group_status then 1 else 0) + group_count rest

-- The column holds the one value in every row.
abbrev pub all_groups : Option ℤ → Dict SlotRecord → Bool
all_groups id [] = true
all_groups id ((k, r) ∷ rest) = opt_int_eq r.group_chat_id id && all_groups id rest

abbrev pub all_users : Option ℤ → Dict SlotRecord → Bool
all_users id [] = true
all_users id ((k, r) ∷ rest) = opt_int_eq r.private_user_id id && all_users id rest

-- `len(group_ids) == 1 and len(user_ids) == 1`
unfoldable pub one_group_one_user : Dict SlotRecord → Bool
one_group_one_user [] = false
one_group_one_user ((k, r) ∷ rest) =
    all_groups r.group_chat_id rest && all_users r.private_user_id rest

is_group_type : Option ChatType → Bool
is_group_type (some group) = true
is_group_type (some supergroup) = true
is_group_type _ = false

unfoldable pub all_group_types : Dict SlotRecord → Bool
unfolding is_group_type
all_group_types [] = true
all_group_types ((k, r) ∷ rest) = is_group_type r.group_type && all_group_types rest

is_supergroup : Option ChatType → Bool
is_supergroup (some supergroup) = true
is_supergroup _ = false

any_supergroup : Dict SlotRecord → Bool
unfolding is_supergroup
any_supergroup [] = false
any_supergroup ((k, r) ∷ rest) = is_supergroup r.group_type || any_supergroup rest

-- `next(iter(group_ids))`
abbrev pub first_group : Dict SlotRecord → Option ℤ
first_group [] = none
first_group ((k, r) ∷ rest) = r.group_chat_id

-- An empty title counts as none.
or_title : Option Text → Option Text → Option Text
or_title none later = later
or_title (some []) later = later
or_title (some (c ∷ cs)) later = some (c ∷ cs)

first_title : Dict SlotRecord → Option Text
unfolding or_title
first_title [] = none
first_title ((k, r) ∷ rest) = or_title r.group_title (first_title rest)

group_row : ℕ → SessionRecord → GroupRecord
group_row now b = record {
  operator_user_id = b.operator_user_id;
  group_chat_id = b.group_chat_id;
  group_title = b.group_title;
  group_type = b.group_type;
  binding_revision = b.revision;
  created_at = now;
}

merge_groups : ℕ → SessionRecord → Dict SlotRecord → Dict GroupRecord → Dict GroupRecord
unfolding group_row
merge_groups now b [] groups = groups
merge_groups now b ((k, r) ∷ rest) groups =
    merge_groups now b rest (insert k (group_row now b) groups)

conflict_rows : ℕ → Rows → Rows
conflict_rows now rows = audit now none "binding.group_consistency_conflict" (record rows {
  binding = record rows.binding {
    state = conflict;
    failure_code = some "TELEGRAM_GROUP_CONSISTENCY_CONFLICT";
  };
})

completed_binding : ℕ → Dict SlotRecord → SessionRecord → SessionRecord
unfolding first_title any_supergroup
completed_binding now slots b = record b {
  group_chat_id = first_group slots;
  group_title = first_title slots;
  group_type = some (if any_supergroup slots then supergroup else group);
  state = completed;
  completed_at = some now;
}

unfoldable pub complete_rows : ℕ → Rows → Rows
unfolding completed_binding merge_groups
complete_rows now rows =
    let b = completed_binding now rows.slots rows.binding in
    audit now none "binding.completed"
      (record rows { binding = b; groups = merge_groups now b rows.slots rows.groups })

with_state : BindingState → Rows → Rows
with_state state rows = record rows { binding = record rows.binding { state = state } }

-- `_recalculate`
unfoldable pub recalculate : ℕ → Rows → Rows
unfolding one_group_one_user all_group_types conflict_rows complete_rows with_state audit
recalculate now rows =
    if ltb (private_count rows.slots) 3
    then with_state (if leb 1 (private_count rows.slots) then partially_bound else waiting_private)
        rows
    else if ltb (group_count rows.slots) 3
    then with_state (if leb 1 (group_count rows.slots) then partially_bound else waiting_group) rows
    else if not (one_group_one_user rows.slots) || not (all_group_types rows.slots)
    then conflict_rows now rows
    else complete_rows now rows
