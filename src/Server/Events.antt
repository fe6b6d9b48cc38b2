-- ===== src/Server/Events.antt =====
-- The socket handlers: `open`, `close`, and `message` with its branches.
use u_dara_chat.Admin.Query.{JsonLibrary, admin_error_msg, answer_admin_query}
use u_dara_chat.Base.Decimal.{to_string}
use u_dara_chat.Base.{
  ℕ, zero, suc, ◌-◌, ◌%◌, ◌^◌, Bool, true, false, not, ◌||◌, ◌&&◌, [], ◌∷◌, ◌++◌, Option, none,
  some, Text, codes, is_empty, starts_with, drop, take, ltb, leb, ◌==◌, if◌then◌else◌,
}
use u_dara_chat.Chat.CmdType.{
  ChatCmdType, tell, group, zone, channel, group_invite, group_join, group_disband, alive,
  admin_status, admin_groups, admin_zones, admin_channels, admin_info, admin_error,
}
use u_dara_chat.Chat.Message.{DaraChatMsg, serialize, find_from, try_parse_message}
use u_dara_chat.Chat.Raw.{fault, refused, done, le32, deserialize_raw}
use u_dara_chat.Group.Container.{alive_msg, set_member_online}
use u_dara_chat.Group.Info.{get_current_group_id}
use u_dara_chat.Group.Types.{new_group_member}
use u_dara_chat.Login.Token.{JwtLibrary}
use u_dara_chat.Login.Verify.{AuthenticatedLogin, accepted, rejected, verify_login}
use u_dara_chat.Server.Groups.{
  Now, send_group_update_info, handle_group_invite, handle_group_join, handle_group_disband,
  handle_alive,
}
use u_dara_chat.Server.Snapshot.{collect_admin_snapshot}
use u_dara_chat.Server.State.{
  TopicSlot, PerSocketData, World, subscribe, send, close_socket, publish, session, set_session,
  erase_session, set_data, set_groups, emit,
}
use u_dara_chat.Server.Topics.{
  to_lower, remove_topic_subscription, handle_subscribe_message, subscribe_standard_topics,
}

-- What the server is started with and what it links against: the secret, the JWT and JSON
-- libraries, the text of a health ratio (a division and a print of floats), the time since the
-- start, and whether uWebSockets runs the close handler inside `end`.
pub record Env : Type 1 where
  pub jwt : JwtLibrary
  pub json : JsonLibrary
  pub secret : Text
  pub health_ratio : Text → Text → Text
  pub uptime : ℕ → json.Double
  pub closes_at_once : Bool

-- The loop of `open`: 32 free slots, each subscribed to a topic of its own. `address` is the
-- printed address of the socket.
unfoldable pub open_slots : World → ℕ → Text → ℕ → ℕ → World
open_slots w ws address i zero = w
open_slots w ws address i (suc rounds) =
    let topic = address ++ (codes "-" ++ to_string i) in
    let slot : TopicSlot = record { topic = topic; used = false } in
    let w1 =
      set_data w ws (record (w.user_data ws) { topics = (w.user_data ws).topics ++ slot ∷ [] }) in
    open_slots (emit w1 (subscribe ws topic)) ws address (suc i) rounds

unfoldable pub on_open : World → ℕ → Text → World
on_open w ws address = open_slots w ws address 0 32

abbrev pub is_session : Option ℕ → ℕ → Bool
is_session none ws = false
is_session (some v) ws = v == ws

unfoldable pub on_close : Now → World → ℕ → World
on_close now w ws =
    let d = w.user_data ws in
    let w1 = record w { active_sessions = erase_session d.name w.active_sessions } in
    let (offline, changed) = set_member_online now.seconds w1.group_container d.name false in
    let w2 = set_groups w1 offline in
    if not d.connected
    then w
    else if not (is_session (session d.name w.active_sessions) ws)
    then w
    else if changed && not (is_empty d.group_id)
    then send_group_update_info w2 1 d.group_id
    else w2

-- `f <= 0` for the float with these bytes; a NaN is not.
unfoldable pub float_le_zero : Text → Bool
float_le_zero bytes =
    let u = le32 bytes in leb (u % 2 ^ 31) 2139095040 && (u == 0 || leb (2 ^ 31) u)

unfoldable pub on_binary : Env → Now → World → ℕ → Text → ℕ → World
on_binary env now w ws message op =
    let d = w.user_data ws in
    if not d.connected || is_empty d.group_id then w else elim (deserialize_raw message) [
      | fault ↦ w
      | refused ↦ w
      | done m ↦
          let member = record (new_group_member now.seconds) {
            name = d.name;
            zone = d.zone;
            health = env.health_ratio m.health m.max_health;
          } in
          let w1 = emit w (publish d.group_id message op) in
          if float_le_zero m.max_health
          then w
          else set_groups w1 (alive_msg now.seconds w1.group_container member)
    ]

-- `ws->end`.
unfoldable pub end_socket : Env → Now → World → ℕ → ℕ → Text → World
end_socket env now w ws code reason =
    let w1 = emit w (close_socket ws code reason) in
    if env.closes_at_once then on_close now w1 ws else w1

-- `HandleConnect` on success.
abbrev pub log_in : PerSocketData → AuthenticatedLogin → PerSocketData
log_in d login = record d {
  name = login.character_name;
  zone = login.zone;
  is_admin = login.is_admin;
  admin_expires_at = login.expires_at;
  connected = true;
}

abbrev pub retire : Env → Now → World → ℕ → Option ℕ → World
retire env now w ws none = w
retire env now w ws (some old) =
    if old == ws then w else end_socket env now w old 1000 (codes "Reconnected")

-- What follows an accepted login.
unfoldable pub enter : Env → Now → World → ℕ → AuthenticatedLogin → ℕ → World
enter env now w ws login op =
    let name = login.character_name in
    let w1 = set_data w ws (log_in (w.user_data ws) login) in
    let w2 = retire env now w1 ws (session name w1.active_sessions) in
    let w3 = record w2 { active_sessions = set_session name ws w2.active_sessions } in
    let group_id = (get_current_group_id w3.group_container name).group_id in
    let w4 = set_data w3 ws (record (w3.user_data ws) { group_id = group_id }) in
    let w5 = set_groups w4 (set_member_online now.seconds w4.group_container name true).0 in
    let w6 = subscribe_standard_topics w5 ws in
    if is_empty (w6.user_data ws).group_id
    then w6
    else send_group_update_info w6 op (w6.user_data ws).group_id

unfoldable pub on_connect : Env → Now → World → ℕ → Text → ℕ → World
on_connect env now w ws msg op =
    if (w.user_data ws).connected
    then end_socket env now w ws 1008 (codes "Reconnect to reauthenticate")
    else elim (verify_login env.jwt msg env.secret now.ticks) [
      | accepted login ↦ enter env now w ws login op
      | rejected reason ↦ end_socket env now w ws 1008 (codes "Authentication failed")
    ]

-- `publish:<topic>:...`: the payload begins with the topic.
unfoldable pub on_publish : World → Text → ℕ → World
on_publish w msg op = elim (find_from b':' msg 8) [
  | none ↦ w
  | some sep ↦ emit w (publish (take (sep - 8) (drop 8 msg)) (drop 8 msg) op)
]

-- The administrator's right, while the token is valid.
abbrev pub has_admin : Now → PerSocketData → Bool
has_admin now d = d.is_admin && ltb now.ticks d.admin_expires_at

unfoldable pub on_admin : Env → Now → World → ℕ → DaraChatMsg → World
on_admin env now w ws msg = emit w (
    send ws (
      serialize (
        answer_admin_query env.json msg (has_admin now (w.user_data ws))
          (λ _. collect_admin_snapshot w (env.uptime now.ticks)))))

-- A `Tell` whose text begins with DEBUG only writes to the log.
unfoldable pub on_tell : Env → Now → World → ℕ → DaraChatMsg → ℕ → World
on_tell env now w ws msg op =
    if starts_with (codes "DEBUG") msg.message
    then (if has_admin now (w.user_data ws)
        then w
        else emit w (
            send ws (
              serialize (
                admin_error_msg env.json (w.user_data ws).name (codes "Forbidden")
                  (codes "Administrator access required")))))
    else emit w (publish (codes "tell_" ++ to_lower msg.recipient) (serialize msg) op)

unfoldable pub on_group : World → ℕ → DaraChatMsg → ℕ → World
on_group w ws msg op =
    if is_empty (w.user_data ws).group_id
    then w
    else emit w (publish (w.user_data ws).group_id (serialize msg) op)

-- The branches on the type of a parsed message, whose sender is already the authenticated name.
unfoldable pub on_chat : Env → Now → World → ℕ → DaraChatMsg → ℕ → ChatCmdType → World
on_chat env now w ws msg op admin_status = on_admin env now w ws msg
on_chat env now w ws msg op admin_groups = on_admin env now w ws msg
on_chat env now w ws msg op admin_zones = on_admin env now w ws msg
on_chat env now w ws msg op admin_channels = on_admin env now w ws msg
on_chat env now w ws msg op admin_info = on_admin env now w ws msg
on_chat env now w ws msg op admin_error = on_admin env now w ws msg
on_chat env now w ws msg op channel = emit w (publish msg.recipient (serialize msg) op)
on_chat env now w ws msg op zone =
    emit w (publish (codes "zone_" ++ (w.user_data ws).zone) (serialize msg) op)
on_chat env now w ws msg op group = on_group w ws msg op
on_chat env now w ws msg op tell = on_tell env now w ws msg op
on_chat env now w ws msg op group_invite = handle_group_invite now w ws msg op
on_chat env now w ws msg op group_join = handle_group_join now w ws msg op
on_chat env now w ws msg op group_disband = handle_group_disband w ws msg op
on_chat env now w ws msg op alive = handle_alive now w ws msg op
on_chat env now w ws msg op _ = w

abbrev pub from_socket : World → ℕ → DaraChatMsg → DaraChatMsg
from_socket w ws msg = record msg { sender = (w.user_data ws).name }

unfoldable pub on_text : Env → Now → World → ℕ → Text → ℕ → World
on_text env now w ws msg op =
    let parsed = try_parse_message msg in
    let chat = from_socket w ws parsed.output in
    if starts_with (codes "connect:") msg
    then on_connect env now w ws msg op
    else if not (w.user_data ws).connected
    then w
    else if starts_with (codes "schedule:") msg
    then w
    else if starts_with (codes "subscribe:") msg
    then handle_subscribe_message w ws msg
    else if starts_with (codes "unsubscribe:") msg
    then remove_topic_subscription w ws (drop 12 msg)
    else if starts_with (codes "publish:") msg
    then on_publish w msg op
    else if not parsed.ok
    then w
    else on_chat env now w ws chat op chat.kind

unfoldable pub on_message : Env → Now → World → ℕ → Text → ℕ → World
on_message env now w ws message op =
    if op == 1 then on_text env now w ws message op else on_binary env now w ws message op
