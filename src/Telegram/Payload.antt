-- ===== src/Telegram/Payload.antt =====
-- The updates that control_plane/telegram/binding_service.py reads, and its tests on them. A field
-- of an update that is missing or of another type is `none`; ids of chats and users are integers,
-- and what the platform numbers and dates is natural.
use ai_agent_desktop.Base.{ℕ, max, Bool, true, false, Option, none, some, [], ◌∷◌, leb, take}
use ai_agent_desktop.Base.Int.{ℤ}
use ai_agent_desktop.Telegram.Rows.{
  Text, BindingState, completed, canceled, expired, failed, ChatType, SlotRecord,
}

-- The next step, if the one before gave a value.
infixl 10 ◌>>=◌
abbrev pub ◌>>=◌ : {A B : Type 0} → Option A → (A → Option B) → Option B
none >>= k = none
some a >>= k = k a

pub record Chat : Type 0 where
  pub id : Option ℤ
  pub kind : Option ChatType
  pub title : Text

-- A date that is absent is 0.
pub record Message : Type 0 where
  pub text : Option Text
  pub chat : Option Chat
  pub sender : Option (Option ℤ)
  pub date : Option ℕ

pub data MemberStatus : Type 0 where
  member administrator creator left kicked another : MemberStatus

pub record NewMember : Type 0 where
  pub status : MemberStatus
  pub user : Option ℤ

pub record Membership : Type 0 where
  pub chat : Option Chat
  pub sender : Option (Option ℤ)
  pub new_member : Option NewMember
  pub date : Option ℕ

pub record Update : Type 0 where
  pub update_id : ℕ
  pub message : Option Message
  pub membership : Option Membership

-- The states in which a session takes no more updates.
abbrev pub is_closed : BindingState → Bool
is_closed canceled = true
is_closed expired = true
is_closed completed = true
is_closed failed = true
is_closed _ = false

abbrev pub is_stale : ℕ → SlotRecord → Bool
is_stale update_id r = elim r.last_update_id [ none ↦ false | some last ↦ leb update_id last ]

-- `max(progress.last_update_id or 0, update_id)`
abbrev pub latest : Option ℕ → ℕ → ℕ
latest none update_id = update_id
latest (some last) update_id = max last update_id

unfoldable pub touched : ℕ → ℕ → SlotRecord → SlotRecord
touched now update_id r = record r {
  last_update_id = some (latest r.last_update_id update_id);
  updated_at = now;
}

-- `str(chat.get("title", ""))[:512] or None`
abbrev pub or_none : Text → Option Text
or_none [] = none
or_none (c ∷ cs) = some (c ∷ cs)

abbrev pub cut_title : Text → Option Text
cut_title title = or_none (take 512 title)
