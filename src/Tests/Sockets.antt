-- ===== src/Tests/Sockets.antt =====
-- The handlers on a world with two sockets, of which socket 1 is logged in as Ann.
use u_dara_chat.Admin.Query.{JsonLibrary}
use u_dara_chat.Base.{
  ◌++◌, ℕ, suc, ◌≤◌, ◌≡◌, refl, ◌≢◌, true, false, List, [], ◌∷◌, some, Text, codes, text_eq,
  starts_with, any_of, count_if, ◌==◌, arith, if◌then◌else◌, getlines,
}
use u_dara_chat.Chat.Message.{find_first}
use u_dara_chat.Group.Count.{size}
use u_dara_chat.Group.NewId.{get_new_group_id}
use u_dara_chat.Group.Types.{new_group_container}
use u_dara_chat.Login.Fields.{add_part, add_parts}
use u_dara_chat.Login.Verify.{AuthenticatedLogin, login_fields, rejected, verify_login}
use u_dara_chat.Server.Events.{Env, on_message, on_close, enter, log_in}
use u_dara_chat.Server.Gate.{on_message_refused_login}
use u_dara_chat.Server.Acts.{AllHonest, SameIdentity}
use u_dara_chat.Chat.CmdType.{tell}
use u_dara_chat.Chat.Message.{serialize}
use u_dara_chat.Server.Delivery.{on_message-tell}
use u_dara_chat.Server.Topics.{to_lower}
use u_dara_chat.Server.State.{publish}
use u_dara_chat.Server.Sessions.{enter_one_session}
use u_dara_chat.Server.Speech.{on_message_speech}
use u_dara_chat.Server.Groups.{Now}
use u_dara_chat.Server.Slots.{held, store_topic_twice}
use u_dara_chat.Server.State.{
  Effect, session, TopicSlot, World, new_per_socket_data, close_socket, emit,
}
use u_dara_chat.Server.Topics.{holds, free_first, store_topic}
use u_dara_chat.Tests.Logins.{one_token}

abbrev json : JsonLibrary
json = record { Double = ℕ; of_size = λ n. n; print = λ j. codes "{}" }

abbrev pub env : Env
env = record {
  jwt = one_token;
  json = json;
  secret = codes "s";
  health_ratio = λ a b. codes "1.0";
  uptime = λ n. n;
  closes_at_once = true;
}

abbrev pub now : Now
now = record { seconds = 150; ticks = 150_000_000_000; dis = λ n. 0; dis2 = 8 }

abbrev unused : TopicSlot
unused = record { topic = codes "a-0"; used = false }

abbrev world : World
world = record {
  user_data = λ ws.
      if ws == 1
      then record new_per_socket_data {
        name = codes "Ann";
        zone = codes "Z";
        topics = unused ∷ unused ∷ [];
        connected = true;
      }
      else new_per_socket_data;
  active_sessions = (codes "Ann", 1) ∷ [];
  group_container = new_group_container;
  effects = [];
}

abbrev chat : Text
chat = codes "Tell:Ann:Bob:hi"

chat_is_no_login : starts_with (codes "connect:") chat ≡ false
unfolding starts_with
chat_is_no_login = refl

abbrev bad_login : Text
bad_login = codes "connect:name"

bad_is_login : starts_with (codes "connect:") bad_login ≡ true
unfolding starts_with
bad_is_login = refl

bad_refused :
    verify_login one_token bad_login (codes "s") 150_000_000_000
    ≡ rejected (
        codes
          "Malformed login field or duplicate field; expected key=value separated by semicolons")
unfolding verify_login starts_with login_fields add_parts getlines add_part find_first
bad_refused = refl

on_message_refused_login_example :
    on_message env now world 2 bad_login 1
    ≡ emit world (close_socket 2 1008 (codes "Authentication failed"))
on_message_refused_login_example =
    on_message_refused_login env now world 2 refl bad_login bad_is_login bad_refused

abbrev general : Text
general = codes "General"

abbrev general_slot : TopicSlot
general_slot = record { topic = general; used = true }

abbrev slots : List TopicSlot
slots = general_slot ∷ []

general-held : 1 ≤ held general slots
unfolding count_if text_eq
general-held = omega arith

-- The slots of a login in front: one that is in use, and the one that was freed.
abbrev standard : List TopicSlot
standard = record { topic = codes "World"; used = true } ∷ []

general-standard : held general standard ≡ 0
unfolding count_if text_eq
general-standard = refl

abbrev stored_again : List TopicSlot
stored_again = (store_topic general (standard ++ unused ∷ slots)).0

store_topic_twice_example :
    (held general stored_again ≡ suc (held general (standard ++ unused ∷ slots)))
    × ((free_first (holds general) stored_again).1 ≡ some general)
    × (1 ≤ held general (free_first (holds general) stored_again).0)
store_topic_twice_example =
    store_topic_twice general standard unused slots general-standard refl general-held

nobody_grouped : size (get_new_group_id now.dis now.dis2) world.group_container.my_groups ≡ 0
unfolding count_if
nobody_grouped = refl

chat_is_no_publish : starts_with (codes "publish:") chat ≡ false
unfolding starts_with
chat_is_no_publish = refl

on_message_speech_example :
    (es : List Effect) × ((on_message env now world 1 chat 1).effects ≡ world.effects ++ es)
    × AllHonest (codes "Ann") es
on_message_speech_example =
    on_message_speech env now world 1 nobody_grouped chat chat_is_no_login chat_is_no_publish

abbrev ann_login : AuthenticatedLogin
ann_login = record {
  is_admin = false;
  expires_at = 200_000_000_000;
  character_name = codes "Ann";
  zone = codes "Z";
}

enter_one_session_example :
    (session (codes "Ann") (enter env now world 2 ann_login 1).active_sessions ≡ some 2)
    × SameIdentity
        ((enter env now world 2 ann_login 1).user_data 2)
        (log_in (world.user_data 2) ann_login)
    × ((old : ℕ)
        → old ≢ 2
        → ((enter env now world 2 ann_login 1).user_data old).name ≡ codes "Ann"
        → on_close now (enter env now world 2 ann_login 1) old ≡ enter env now world 2 ann_login 1)
enter_one_session_example = enter_one_session env now world 2 ann_login 1

-- Socket 1 writes in another name.
on_message-tell_example :
    on_message env now world 1
      (serialize (record {
        kind = tell;
        sender = codes "Eve";
        recipient = codes "Bob";
        message = codes "hi";
      }))
      1
    ≡ emit world (
        publish
          (codes "tell_" ++ to_lower (codes "Bob"))
          (serialize (record {
            kind = tell;
            sender = codes "Ann";
            recipient = codes "Bob";
            message = codes "hi";
          }))
          1)
on_message-tell_example =
    on_message-tell env now world 1 (codes "Eve") (codes "Bob") (codes "hi") refl
      (unfold any_of in refl) (unfold any_of in refl) (unfold starts_with in refl)

abbrev invitation : Text
invitation = codes "GroupInvite:Ann:Bob:"
