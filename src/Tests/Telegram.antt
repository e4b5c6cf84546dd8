-- ===== src/Tests/Telegram.antt =====
-- The binding sessions of control_plane/telegram/binding_service.py at concrete inputs.
use ai_agent_desktop.Base.{
  ℕ, ◌≤◌, String, false, Option, none, some, List, [], ◌∷◌, ◌≡◌, ◌⊎◌, refl, arith, if◌then◌else◌,
}
use ai_agent_desktop.Base.Dict.{lookup, insert}
use ai_agent_desktop.Base.Int.{pos, negsuc}
use ai_agent_desktop.Errors.{UserFacingError, ok, err}
use ai_agent_desktop.Lease.Model.{acquire, control_plane_binding, heartbeat}
use ai_agent_desktop.Telegram.Rows.{
  Text, completed, private_chat, supergroup, Rows, recalculate, expire_if_needed,
}
use ai_agent_desktop.Telegram.Command.{
  codes, hermes, claude, codex, is_space, text_eq, extract_code, parts, scan, strip, rstrip, lstrip,
  bind_payload, extract_words, bind_value, private_command,
}
use ai_agent_desktop.Telegram.Payload.{member, Update}
use ai_agent_desktop.Telegram.Updates.{process_update}
use ai_agent_desktop.Telegram.Service.{resume_rows, put_rows}
use ai_agent_desktop.Telegram.Session.{Identity, Service, new_rows}
use ai_agent_desktop.Telegram.Poll.{Environment, serve_updates, poll}
use ai_agent_desktop.Telegram.Policy.{View, view}
use ai_agent_desktop.Telegram.Refinement.{ByActor, process_update-refines}
use ai_agent_desktop.Telegram.Strangers.{strangers_keep}
use ai_agent_desktop.Telegram.Replayed.{Unmoved}
use ai_agent_desktop.Telegram.Idempotent.{process_update_again}
use ai_agent_desktop.Telegram.Sound.{IsSound}
use ai_agent_desktop.Telegram.Lifetime.{updated, started, lived, Life-IsSound, completed_final}
use ai_agent_desktop.Telegram.Roundtrip.{extract-private_command}
use ai_agent_desktop.Telegram.Released.{
  IsFree, offset_of, AllBefore, serve_updates-acknowledges, poll-IsFree,
}

-- A text of lower case.
abbrev same_text : Text → Text
same_text text = text

abbrev digest_of : Text → String
digest_of text = if text_eq text (codes "abc") then "right" else "wrong"

abbrev session_digest : String → Text → String
session_digest session_id text = digest_of text

abbrev clock_of : ℕ → ℕ
clock_of n = n

abbrev bots : List Identity
bots =
    record {
      slot = hermes;
      bot_id = pos 11;
      username = "h_bot";
      credential_reference_id = "h";
      credential_revision = 1;
    }
    ∷ record {
      slot = claude;
      bot_id = pos 12;
      username = "c_bot";
      credential_reference_id = "c";
      credential_revision = 1;
    }
    ∷ record {
      slot = codex;
      bot_id = pos 13;
      username = "x_bot";
      credential_reference_id = "x";
      credential_revision = 1;
    }
    ∷ []

abbrev fresh_rows : Rows
fresh_rows = new_rows "right" 900000000 0 bots

-- The person 7 sends the command for the bot "hermes".
abbrev first_update : Update
first_update = record {
  update_id = 5;
  message = some (record {
    text = some (private_command hermes (codes "abc"));
    chat = some (record { id = some (pos 7); kind = some private_chat; title = [] });
    sender = some (some (pos 7));
    date = some 0;
  });
  membership = none;
}

-- The person 8 adds a bot to a group.
abbrev strange_update : Update
strange_update = record {
  update_id = 6;
  message = none;
  membership = some (record {
    chat = some (record { id = some (negsuc 99); kind = some supergroup; title = [] });
    sender = some (some (pos 8));
    new_member = some (record { status = member; user = some (pos 11) });
    date = some 0;
  });
}

abbrev bound_rows : Rows
bound_rows = process_update same_text digest_of 1 2 "hermes" first_update fresh_rows

abbrev done_rows : Rows
done_rows = record fresh_rows { binding = record fresh_rows.binding { state = completed } }

process_update-refines_example :
    (v : View) × ByActor none (view fresh_rows) v × ByActor (some (pos 7)) v (view bound_rows)
process_update-refines_example =
    process_update-refines same_text digest_of 1 2 "hermes" first_update fresh_rows

-- The sender of the right code becomes the operator.
first_operator : bound_rows.binding.operator_user_id ≡ some (pos 7)
unfolding process_update lookup new_rows expire_if_needed extract_code parts scan strip rstrip
    lstrip private_command is_space bind_payload extract_words bind_value recalculate insert
first_operator = refl

strangers_keep_example :
    view (process_update same_text digest_of 3 4 "hermes" strange_update bound_rows)
    ≡ view bound_rows
strangers_keep_example =
    strangers_keep same_text digest_of 3 4 "hermes" strange_update bound_rows (pos 7) first_operator
      (λ e. ground (arith, e)) (λ e. ground (arith, e))

process_update_again_example :
    Unmoved bound_rows (process_update same_text digest_of 3 4 "hermes" first_update bound_rows)
process_update_again_example =
    process_update_again same_text digest_of 1 2 3 4 "hermes" first_update fresh_rows

Life-IsSound_example : IsSound bound_rows
Life-IsSound_example = Life-IsSound same_text digest_of bound_rows (
    lived fresh_rows bound_rows (started "right" 900000000 0 bots refl)
      (updated 1 2 "hermes" first_update))

extract-private_command_example :
    extract_code same_text (private_command codex (codes "abc")) private_chat (codes "x_bot")
    ≡ (some (codes "abc"), some codex)
unfolding is_space
extract-private_command_example =
    extract-private_command same_text (codes "x_bot") codex (codes "abc") refl
      (refl, (refl, (refl, tt)))

-- One update waits.
abbrev quiet_environment : Environment
quiet_environment = record {
  identity = some (record {
    slot = hermes;
    bot_id = pos 11;
    username = "h_bot";
    credential_reference_id = "h";
    credential_revision = 1;
  });
  metadata_revision = ok 1;
  checkpoint = λ n. none;
  webhook = ok false;
  get_updates = λ offset. ok (first_update ∷ []);
}

abbrev fresh_service : Service
fresh_service = record {
  sessions = ("s", fresh_rows) ∷ [];
  leases = record { table = []; ticks = 0 };
}

completed_final_example :
    (process_update same_text digest_of 1 2 "hermes" first_update done_rows ≡ done_rows)
    × ((e : UserFacingError) × (resume_rows
            (λ n. n)
            same_text
            same_text
            session_digest
            "s"
            []
            900
            3
            bots
            done_rows
            fresh_service
          ≡ (err e, put_rows "s" done_rows fresh_service)))
completed_final_example =
    completed_final same_text digest_of done_rows
      (process_update same_text digest_of 1 2 "hermes" first_update done_rows) refl
      (updated 1 2 "hermes" first_update) (λ n. n) same_text session_digest "s" [] 900 3 bots
      fresh_service

poll-IsFree_example :
    ((poll clock_of same_text session_digest quiet_environment "op" "s" "hermes" 10
        fresh_service).1.leases.table
      ≡ [])
    ⊎ IsFree "hermes" "op"
        (poll clock_of same_text session_digest quiet_environment "op" "s" "hermes" 10
          fresh_service).1.leases.table
poll-IsFree_example =
    poll-IsFree clock_of same_text session_digest quiet_environment "op" "s" "hermes" 10
      fresh_service

abbrev leased_service : Service
leased_service = record fresh_service {
  leases = (acquire clock_of "hermes" control_plane_binding "op" 1 60 fresh_service.leases).1;
}

abbrev served_service : Option UserFacingError × Service
served_service =
    serve_updates clock_of same_text session_digest quiet_environment "op" "s" "hermes" 10 1
      (strange_update ∷ []) leased_service

serve_updates-acknowledges_example :
    (offset_of (lookup "hermes" leased_service.leases.table)
      ≤ offset_of (lookup "hermes" served_service.1.leases.table))
    × AllBefore "hermes" (strange_update ∷ []) served_service.1
unfolding serve_updates heartbeat lookup acquire insert
serve_updates-acknowledges_example =
    serve_updates-acknowledges clock_of same_text session_digest quiet_environment "op" "s" "hermes"
      10 1 (strange_update ∷ []) leased_service refl
