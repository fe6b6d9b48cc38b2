-- ===== src/Server/Conduct.antt =====
-- The text frames of a socket that has logged in: each is a sequence of small acts in its name.
use u_dara_chat.Admin.Query.{JsonLibrary, AdminSnapshot, admin_error_msg, answer_admin_query}
use u_dara_chat.Base.Int.{pos, eq_ℤ, ltb_ℤ}
use u_dara_chat.Base.{
  ℕ, ◌≡◌, refl, Bool, true, false, not, ◌&&◌, ◌||◌, List, [], Option, some, none, Text, codes,
  starts_with, is_empty, text_eq, drop, arith, if◌then◌else◌,
}
use u_dara_chat.Chat.CmdType.{
  ChatCmdType, tell, group, zone, channel, group_invite, group_join, group_disband, alive,
  admin_status, admin_groups, admin_zones, admin_channels, admin_info, admin_error,
}
use u_dara_chat.Chat.Message.{
  DaraChatMsg, Parsed, get_group_disband_info_message, try_parse_message,
}
use u_dara_chat.Group.Count.{size}
use u_dara_chat.Group.Info.{get_group_info}
use u_dara_chat.Group.Invites.{remove_old_invites, check_has_invited}
use u_dara_chat.Group.NewId.{get_new_group_id}
use u_dara_chat.Group.Reach.{start, join, disband, alive as alive_step, invite, uninvite, expire}
use u_dara_chat.Group.Types.{GroupInfo, my_max_group_members}
use u_dara_chat.Server.Acts.{
  Acts, stay, after, regroup, relabel, retopic, effect, subscribed, unsubscribed, answered, spoken,
  announced, Acts-SameIdentity,
}
use u_dara_chat.Server.Events.{Env, on_admin, on_tell, on_group, on_chat, from_socket, on_text}
use u_dara_chat.Server.Groups.{
  Now, send_group_update_info, forward_invite, handle_group_invite, leave_solo_group,
  finish_group_join, handle_group_join, handle_group_disband, handle_alive,
}
use u_dara_chat.Server.State.{TopicSlot, World, set_groups}
use u_dara_chat.Server.Topics.{
  unsubscribe_found, remove_group_subscription, remove_topic_subscription, store_and_subscribe,
  handle_subscribe_message, subscribe_group_topic,
}

pub Acts-if :
    {n : Text} {w u v : World} (b : Bool) → Acts n w u → Acts n w v → Acts n w (if b then u else v)
Acts-if true p q = p
Acts-if false p q = q

unsubscribe_found-Acts :
    {n : Text} (w : World) (ws : ℕ) (r : List TopicSlot × Option Text)
    → Acts n w (unsubscribe_found w ws r)
unsubscribe_found-Acts w ws (ts, none) = stay
unsubscribe_found-Acts w ws (ts, some t) = after (retopic ws ts) (effect (unsubscribed ws t))

remove_group_subscription-Acts :
    {n : Text} (w : World) (ws : ℕ) → Acts n w (remove_group_subscription w ws)
unfolding remove_group_subscription
remove_group_subscription-Acts w ws = unsubscribe_found-Acts w ws _

pub remove_topic_subscription-Acts :
    {n : Text} (w : World) (ws : ℕ) (t : Text) → Acts n w (remove_topic_subscription w ws t)
unfolding remove_topic_subscription
remove_topic_subscription-Acts w ws t = unsubscribe_found-Acts w ws _

pub store_and_subscribe-Acts :
    {n : Text} (w : World) (ws : ℕ) (t : Text) → Acts n w (store_and_subscribe w ws t)
unfolding store_and_subscribe
store_and_subscribe-Acts w ws t =
    Acts-if _ (after (retopic ws _) (effect (subscribed ws t))) (retopic ws _)

pub handle_subscribe_message-Acts :
    {n : Text} (w : World) (ws : ℕ) (m : Text) → Acts n w (handle_subscribe_message w ws m)
unfolding handle_subscribe_message
handle_subscribe_message-Acts w ws m =
    Acts-if _ stay (Acts-if _ stay (store_and_subscribe-Acts w ws _))

pub subscribe_group_topic-Acts :
    {n : Text} (w : World) (ws : ℕ) → Acts n w (subscribe_group_topic w ws)
unfolding subscribe_group_topic
subscribe_group_topic-Acts w ws = Acts-if _ stay (store_and_subscribe-Acts w ws _)

pub send_group_update_info-Acts :
    {n : Text} (w : World) (op : ℕ) (g : Text) → Acts n w (send_group_update_info w op g)
unfolding send_group_update_info
send_group_update_info-Acts w op g = effect (announced _ _ op refl refl)

module _ {n : Text} (now : Now) (ws op : ℕ) (msg : DaraChatMsg) (speaks : msg.sender ≡ n) where
  forward_invite-Acts : (w : World) → Acts n w (forward_invite now w msg op)
  unfolding forward_invite
  forward_invite-Acts w = Acts-if _ stay (
      after
        (after (regroup (expire now.seconds w.group_container))
          (regroup (invite now.seconds _ msg.sender msg.recipient)))
        (effect (spoken _ (record msg { kind = group_invite }) op speaks)))

  handle_group_invite-Acts :
      (w : World)
      → size (get_new_group_id now.dis now.dis2) w.group_container.my_groups ≡ 0
      → Acts n w (handle_group_invite now w ws msg op)
  unfolding handle_group_invite
  handle_group_invite-Acts w fresh =
      let started =
        regroup (start now.seconds now.dis now.dis2 w.group_container msg.sender fresh) in
      Acts-if _ (forward_invite-Acts w) (
        Acts-if _ started (
          after (after started (relabel ws _))
            (after (subscribe_group_topic-Acts _ ws) (forward_invite-Acts _))))

  pub leave_solo_group-Acts : (w : World) (m : Text) → Acts n w (leave_solo_group w ws m)
  unfolding leave_solo_group
  leave_solo_group-Acts w m =
      after (remove_group_subscription-Acts w ws) (after (regroup (disband _ m)) (relabel ws _))

  finish_group_join-Acts : (w : World) (m l : Text) → Acts n w (finish_group_join now w ws m l op)
  unfolding finish_group_join
  finish_group_join-Acts w m l =
      let joined = regroup (join now.seconds w.group_container m l) in
      Acts-if _ stay (
        Acts-if _ joined (
          after (after joined (relabel ws _)) (
            after (subscribe_group_topic-Acts _ ws)
              (after (regroup (uninvite _ l m)) (send_group_update_info-Acts _ op _)))))

  handle_group_join-Acts : (w : World) → Acts n w (handle_group_join now w ws msg op)
  unfolding handle_group_join
  handle_group_join-Acts w =
      let w1 : World = set_groups w (remove_old_invites now.seconds w.group_container) in
      let expired : Acts n w w1 = regroup (expire now.seconds w.group_container) in
      let solo : Bool = eq_ℤ (get_group_info w1.group_container msg.sender).member_count (pos 1) in
      let w2 : World = if solo then leave_solo_group w1 ws msg.sender else w1 in
      let left : Acts n w1 w2 = Acts-if solo (leave_solo_group-Acts w1 msg.sender) stay in
      let tried : Acts n w2 (finish_group_join now w2 ws msg.sender msg.recipient op) =
        finish_group_join-Acts w2 msg.sender msg.recipient in
      let target : GroupInfo = get_group_info w1.group_container msg.recipient in
      let info : GroupInfo = get_group_info w1.group_container msg.sender in
      Acts-if (not (check_has_invited w1.group_container msg.recipient msg.sender)) expired (
        Acts-if
          (is_empty target.group_id || not (ltb_ℤ target.member_count (pos my_max_group_members)))
          expired
          (Acts-if (not (is_empty info.group_id) && text_eq info.group_id target.group_id) expired
            (after (after expired left) tried)))

  handle_alive-Acts : (w : World) → Acts n w (handle_alive now w ws msg op)
  unfolding handle_alive
  handle_alive-Acts w =
      after (regroup (alive_step now.seconds w.group_container _)) (effect (spoken _ _ op speaks))

handle_group_disband-Acts :
    (w : World) (ws : ℕ) (msg : DaraChatMsg) (op : ℕ)
    → Acts (w.user_data ws).name w (handle_group_disband w ws msg op)
unfolding handle_group_disband get_group_disband_info_message
handle_group_disband-Acts w ws msg op =
    let left =
      after (regroup (disband w.group_container msg.sender))
        (after (remove_group_subscription-Acts _ ws) (relabel ws [])) in
    Acts-if _ stay (
      after (after left (effect (spoken _ _ op (Acts-SameIdentity left ws).name)))
        (send_group_update_info-Acts _ op _))

answer_admin_query-sender :
    (json : JsonLibrary) (m : DaraChatMsg) (b : Bool) (f : Unit {0} → AdminSnapshot json.Double)
    → (answer_admin_query json m b f).sender ≡ codes "Server"
unfolding answer_admin_query admin_error_msg
answer_admin_query-sender json m b f = ground arith

admin_error_msg-sender :
    (json : JsonLibrary) (n c t : Text) → (admin_error_msg json n c t).sender ≡ codes "Server"
unfolding admin_error_msg
admin_error_msg-sender json n c t = refl

on_admin-Acts :
    {n : Text} (env : Env) (now : Now) (w : World) (ws : ℕ) (msg : DaraChatMsg)
    → Acts n w (on_admin env now w ws msg)
unfolding on_admin
on_admin-Acts env now w ws msg = effect (answered ws _ (answer_admin_query-sender env.json msg _ _))

on_tell-Acts :
    {n : Text} (env : Env) (now : Now) (w : World) (ws : ℕ) (msg : DaraChatMsg) (op : ℕ)
    → msg.sender ≡ n
    → Acts n w (on_tell env now w ws msg op)
unfolding on_tell
on_tell-Acts env now w ws msg op speaks =
    Acts-if _ (Acts-if _ stay (effect (answered ws _ (admin_error_msg-sender env.json _ _ _))))
      (effect (spoken _ msg op speaks))

on_group-Acts :
    {n : Text} (w : World) (ws : ℕ) (msg : DaraChatMsg) (op : ℕ)
    → msg.sender ≡ n
    → Acts n w (on_group w ws msg op)
unfolding on_group
on_group-Acts w ws msg op speaks = Acts-if _ stay (effect (spoken _ msg op speaks))

module _ (env : Env) (now : Now) (w : World) (ws op : ℕ)
    (fresh : size (get_new_group_id now.dis now.dis2) w.group_container.my_groups ≡ 0) where
  on_chat-Acts :
      (msg : DaraChatMsg)
      → msg.sender ≡ (w.user_data ws).name
      → (k : ChatCmdType) → Acts (w.user_data ws).name w (on_chat env now w ws msg op k)
  unfolding on_chat
  on_chat-Acts msg s admin_status = on_admin-Acts env now w ws msg
  on_chat-Acts msg s admin_groups = on_admin-Acts env now w ws msg
  on_chat-Acts msg s admin_zones = on_admin-Acts env now w ws msg
  on_chat-Acts msg s admin_channels = on_admin-Acts env now w ws msg
  on_chat-Acts msg s admin_info = on_admin-Acts env now w ws msg
  on_chat-Acts msg s admin_error = on_admin-Acts env now w ws msg
  on_chat-Acts msg s channel = effect (spoken _ msg op s)
  on_chat-Acts msg s zone = effect (spoken _ msg op s)
  on_chat-Acts msg s group = on_group-Acts w ws msg op s
  on_chat-Acts msg s tell = on_tell-Acts env now w ws msg op s
  on_chat-Acts msg s group_invite = handle_group_invite-Acts now ws op msg s w fresh
  on_chat-Acts msg s group_join = handle_group_join-Acts now ws op msg s w
  on_chat-Acts msg s group_disband = handle_group_disband-Acts w ws msg op
  on_chat-Acts msg s alive = handle_alive-Acts now ws op msg s w
  on_chat-Acts msg s _ = stay

  -- Every text frame but a login and a `publish:` is such a sequence.
  pub on_text-Acts :
      (msg : Text)
      → starts_with (codes "connect:") msg ≡ false
      → starts_with (codes "publish:") msg ≡ false
      → Acts (w.user_data ws).name w (on_text env now w ws msg op)
  unfolding on_text
  on_text-Acts msg a b =
      let parsed : Parsed = try_parse_message msg in
      rw (a, b)
        (Acts-if (not (w.user_data ws).connected) stay (
          Acts-if (starts_with (codes "schedule:") msg) stay (
            Acts-if (starts_with (codes "subscribe:") msg) (handle_subscribe_message-Acts w ws msg)
              (Acts-if (starts_with (codes "unsubscribe:") msg)
                (remove_topic_subscription-Acts w ws (drop 12 msg))
                (Acts-if (not parsed.ok) stay
                  (on_chat-Acts (from_socket w ws parsed.output) refl parsed.output.kind))))))
