-- ===== src/Tests/Messages.antt =====
-- Frames that are parsed, written, and read as binary.
use u_dara_chat.Base.{
  ℕ, ◌≡◌, refl, ◌≢◌, ◌⊎◌, inl, true, false, [], Text, codes, text_eq, any_of, ◌==◌,
}
use u_dara_chat.Admin.Access.{answer_admin_query_private}
use u_dara_chat.Admin.Query.{JsonLibrary, AdminSnapshot, answer_admin_query, is_admin_query}
use u_dara_chat.Chat.CmdType.{tell, no_type, admin_status, admin_error, chat_cmd_type_from_string}
use u_dara_chat.Chat.Message.{
  find_from, find_first, parse_fields, DaraChatMsg, serialize, try_parse_message,
}
use u_dara_chat.Chat.Raw.{refused, deserialize_raw, serialize_raw}
use u_dara_chat.Chat.RawRefused.{Float, bytes_of, deserialize_raw-serialize_raw}
use u_dara_chat.Chat.RawSafety.{Safe, deserialize_raw-Safe}
use u_dara_chat.Chat.RoundTrip.{
  Accepts, Refuses, try_parse_message-serialize, try_parse_message_outcome,
}

abbrev frame : Text
frame = codes "Tell:Ann:Bob:one:two"

abbrev told : DaraChatMsg
told = record {
  kind = tell;
  sender = codes "Ann";
  recipient = codes "Bob";
  message = codes "one:two";
}

-- A colon in the text stays in the text.
parse_tell : (try_parse_message frame).output ≡ told
unfolding try_parse_message find_from find_first parse_fields chat_cmd_type_from_string text_eq
parse_tell = refl

try_parse_message_outcome_example :
    Accepts frame (try_parse_message frame) ⊎ Refuses (try_parse_message frame)
try_parse_message_outcome_example = try_parse_message_outcome frame

free_ann : any_of (λ d. d == b':') (codes "Ann") ≡ false
unfolding any_of
free_ann = refl

free_bob : any_of (λ d. d == b':') (codes "Bob") ≡ false
unfolding any_of
free_bob = refl

try_parse_message-serialize_example :
    try_parse_message (serialize told) ≡ record { ok = true; output = told; error = [] }
try_parse_message-serialize_example = try_parse_message-serialize told (λ e. cc) free_ann free_bob

known_tell : chat_cmd_type_from_string (codes "Tell") ≢ no_type
unfolding chat_cmd_type_from_string text_eq
known_tell e = cc

abbrev short_frame : Text
short_frame = codes "DARA0000"

deserialize_raw-Safe_example : Safe (deserialize_raw short_frame)
deserialize_raw-Safe_example = deserialize_raw-Safe short_frame

abbrev json : JsonLibrary
json = record { Double = ℕ; of_size = λ n. n; print = λ j. codes "{}" }

abbrev empty_snapshot : AdminSnapshot ℕ
empty_snapshot = record {
  uptime_seconds = 0;
  connected_clients = 0;
  groups = [];
  zones = [];
  channels = [];
}

abbrev busy_snapshot : AdminSnapshot ℕ
busy_snapshot = record {
  uptime_seconds = 9;
  connected_clients = 3;
  groups = [];
  zones = [];
  channels = [];
}

abbrev query : DaraChatMsg
query = record { kind = admin_status; sender = codes "Ann"; recipient = []; message = [] }

answer_admin_query_private_example :
    (answer_admin_query json query false (λ _. empty_snapshot)
      ≡ answer_admin_query json query false (λ _. busy_snapshot))
    × ((answer_admin_query json query false (λ _. empty_snapshot)).kind ≡ admin_error)
answer_admin_query_private_example =
    answer_admin_query_private json query false empty_snapshot busy_snapshot (inl refl)

status_is_query : is_admin_query admin_status ≡ true
unfolding is_admin_query
status_is_query = refl

abbrev half : Float
half = record { a = 0; b = 0; c = 0; d = 63 }

deserialize_raw-serialize_raw_example :
    deserialize_raw (
      serialize_raw (record {
        x = bytes_of half;
        y = bytes_of half;
        z = bytes_of half;
        health = bytes_of half;
        max_health = bytes_of half;
        mana = bytes_of half;
        max_mana = bytes_of half;
        energy = bytes_of half;
        max_energy = bytes_of half;
        zone = codes "Dungeon";
        char_name = codes "Ann";
      }))
    ≡ refused
deserialize_raw-serialize_raw_example =
    deserialize_raw-serialize_raw half half half half half half half half half (codes "Dungeon")
      (codes "Ann")
