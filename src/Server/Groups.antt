-- ===== src/Server/Groups.antt =====
-- The handlers of the group commands, and the notifications that they publish.
use u_dara_chat.Base.Int.{pos, eq_ℤ, ltb_ℤ}
use u_dara_chat.Base.{ℕ, not, ◌||◌, ◌&&◌, [], ◌++◌, Text, codes, text_eq, is_empty, if◌then◌else◌}
use u_dara_chat.Chat.CmdType.{
  group_info, group_invite as group_invite_type, group_disband_info, alive_info,
}
use u_dara_chat.Chat.Message.{DaraChatMsg, new_chat_msg, serialize, get_group_disband_info_message}
use u_dara_chat.Group.Container.{
  group_start_group, group_join, group_invite, group_disband, alive_msg, get_group_topic,
}
use u_dara_chat.Group.Info.{get_group_info, get_group_info_by_group_id}
use u_dara_chat.Group.Invites.{add_invite, remove_invite, remove_old_invites, check_has_invited}
use u_dara_chat.Group.NewId.{get_new_group_id}
use u_dara_chat.Group.Types.{my_max_group_members, new_group_member}
use u_dara_chat.Group.Wire.{serialize_to_send}
use u_dara_chat.Server.State.{World, publish, set_data, set_groups, emit}
use u_dara_chat.Server.Topics.{to_lower, remove_group_subscription, subscribe_group_topic}

-- What one handler run reads of the outside: `std::time(nullptr)`, `system_clock::now()`, and the
-- draws of the random engine.
pub record Now : Type 0 where
  pub seconds : ℕ
  pub ticks : ℕ
  pub dis : ℕ → ℕ
  pub dis2 : ℕ

unfoldable pub send_group_update_info : World → ℕ → Text → World
send_group_update_info w op group_id =
    let info = get_group_info_by_group_id w.group_container group_id in
    let msg = record new_chat_msg {
      kind = group_info;
      sender = codes "GroupAdmin";
      message = serialize_to_send info;
    } in
    emit w (publish (get_group_topic group_id) (serialize msg) op)

-- The second half of the `GroupInvite` handler, with a group at hand.
unfoldable pub forward_invite : Now → World → DaraChatMsg → ℕ → World
forward_invite now w msg op =
    let allowed =
      eq_ℤ (group_invite w.group_container msg.recipient msg.sender).error_code (pos 1) in
    let stored =
      add_invite now.seconds (remove_old_invites now.seconds w.group_container) msg.sender
        msg.recipient in
    if not allowed
    then w
    else emit (set_groups w stored) (
        publish (codes "tell_" ++ to_lower msg.recipient)
          (serialize (record msg { kind = group_invite_type })) op)

unfoldable pub handle_group_invite : Now → World → ℕ → DaraChatMsg → ℕ → World
handle_group_invite now w ws msg op =
    let (started, info) =
      group_start_group now.seconds (get_new_group_id now.dis now.dis2) w.group_container
        msg.sender in
    let w1 = set_groups w started in
    let w2 = set_data w1 ws (record (w1.user_data ws) { group_id = info.group_id }) in
    if not (is_empty (w.user_data ws).group_id)
    then forward_invite now w msg op
    else if not (eq_ℤ info.error_code (pos 0))
    then w1
    else forward_invite now (subscribe_group_topic w2 ws) msg op

-- Leaving a solo group before joining another.
unfoldable pub leave_solo_group : World → ℕ → Text → World
leave_solo_group w ws invited =
    let w1 = remove_group_subscription w ws in
    let w2 = set_groups w1 (group_disband w1.group_container invited).0 in
    set_data w2 ws (record (w2.user_data ws) { group_id = [] })

-- Joining, once the connection has no group.
unfoldable pub finish_group_join : Now → World → ℕ → Text → Text → ℕ → World
finish_group_join now w ws invited inviter op =
    let (joined, info) = group_join now.seconds w.group_container invited inviter in
    let w1 = set_groups w joined in
    let w2 =
      subscribe_group_topic (set_data w1 ws (record (w1.user_data ws) { group_id = info.group_id }))
        ws in
    let w3 = set_groups w2 (remove_invite w2.group_container inviter invited) in
    if not (is_empty (w.user_data ws).group_id)
    then w
    else if not (eq_ℤ info.error_code (pos 0)) || is_empty info.group_id
    then w1
    else send_group_update_info w3 op (w3.user_data ws).group_id

unfoldable pub handle_group_join : Now → World → ℕ → DaraChatMsg → ℕ → World
handle_group_join now w ws msg op =
    let inviter = msg.recipient in
    let invited = msg.sender in
    let w1 = set_groups w (remove_old_invites now.seconds w.group_container) in
    let target = get_group_info w1.group_container inviter in
    let info = get_group_info w1.group_container invited in
    let w2 = if eq_ℤ info.member_count (pos 1) then leave_solo_group w1 ws invited else w1 in
    if not (check_has_invited w1.group_container inviter invited)
    then w1
    else if is_empty target.group_id || not (ltb_ℤ target.member_count (pos my_max_group_members))
    then w1
    else if not (is_empty info.group_id) && text_eq info.group_id target.group_id
    then w1
    else finish_group_join now w2 ws invited inviter op

unfoldable pub handle_group_disband : World → ℕ → DaraChatMsg → ℕ → World
handle_group_disband w ws msg op =
    let old_group_topic = get_group_topic (w.user_data ws).group_id in
    let w1 = set_groups w (group_disband w.group_container msg.sender).0 in
    let w2 = remove_group_subscription w1 ws in
    let w3 = set_data w2 ws (record (w2.user_data ws) { group_id = [] }) in
    let note = record new_chat_msg { kind = group_disband_info; sender = (w3.user_data ws).name } in
    let w4 = emit w3 (publish old_group_topic (get_group_disband_info_message note) op) in
    if is_empty (w.user_data ws).group_id then w else send_group_update_info w4 op old_group_topic

unfoldable pub handle_alive : Now → World → ℕ → DaraChatMsg → ℕ → World
handle_alive now w ws msg op =
    let zone = (w.user_data ws).zone in
    let member = record (new_group_member now.seconds) {
      name = msg.sender;
      zone = zone;
      health = msg.message;
    } in
    let note = record new_chat_msg {
      kind = alive_info;
      sender = msg.sender;
      message = zone ++ (codes ";" ++ msg.message);
    } in
    emit (set_groups w (alive_msg now.seconds w.group_container member))
      (publish (w.user_data ws).group_id (serialize note) op)
