-- ===== src/Server/GroupPrivacy.antt =====
-- The group handlers keep the reserved topics with their owners.
use u_dara_chat.Base.Int.{pos, eq_ℤ, ltb_ℤ}
use u_dara_chat.Base.{
  ℕ, ◌≡◌, refl, ◌∙◌, Bool, true, not, ◌||◌, ◌&&◌, [], Text, text_eq, count_if, is_empty,
  is_empty_iff, ◌==◌, ==_iff, if◌then◌else◌, Bool-cases, inl, inr,
}
use u_dara_chat.Chat.Message.{DaraChatMsg}
use u_dara_chat.Group.Container.{group_start_group, group_join as join, group_disband as disband}
use u_dara_chat.Group.Info.{get_group_info}
use u_dara_chat.Group.Invites.{remove_old_invites, check_has_invited}
use u_dara_chat.Group.NewId.{get_new_group_id}
use u_dara_chat.Group.Types.{GroupInfo, my_max_group_members}
use u_dara_chat.Server.Acts.{Acts-SameIdentity}
use u_dara_chat.Server.Conduct.{leave_solo_group-Acts}
use u_dara_chat.Server.Groups.{
  Now, send_group_update_info, forward_invite, handle_group_invite, leave_solo_group,
  finish_group_join, handle_group_join, handle_group_disband, handle_alive,
}
use u_dara_chat.Server.Guarded.{
  silent-IsGuarded, IsGuarded-if, set_groups-IsGuarded, set_data-IsGuarded, relabel-IsPrivate,
}
use u_dara_chat.Server.Subscribing.{
  remove_group_subscription-IsGuarded, remove_group_subscription-count,
  subscribe_group_topic-IsGuarded,
}
use u_dara_chat.Server.Hearing.{IsGuarded, no_group}
use u_dara_chat.Server.State.{World, set_groups, set_data}
use u_dara_chat.Server.Topics.{is_group_slot, remove_group_subscription, subscribe_group_topic}

pub send_group_update_info-IsGuarded :
    (w : World) (op : ℕ) (g : Text) → IsGuarded w → IsGuarded (send_group_update_info w op g)
unfolding send_group_update_info
send_group_update_info-IsGuarded w op g p = silent-IsGuarded w _ refl p

-- A socket with no group.
ungrouped :
    (w : World) (ws : ℕ)
    → is_empty (w.user_data ws).group_id ≡ true
    → IsGuarded w
    → count_if is_group_slot (w.user_data ws).topics ≡ 0
ungrouped w ws e g =
    no_group (w.user_data ws) (w.user_data ws).topics ((is_empty_iff _).0 e) (g.each ws).kept

module _ (ws : ℕ) where
  -- A new group id, for a socket with no group topic, and the subscription to its topic.
  relabel-IsGuarded :
      (w : World) (id : Text)
      → count_if is_group_slot (w.user_data ws).topics ≡ 0
      → IsGuarded w
      → IsGuarded (set_data w ws (record (w.user_data ws) { group_id = id }))
  relabel-IsGuarded w id z g =
      set_data-IsGuarded w ws _ (relabel-IsPrivate ws (w.user_data ws) w.effects id z (g.each ws)) g

  enrol-IsGuarded :
      (w : World) (id : Text)
      → (w.user_data ws).connected ≡ true
      → count_if is_group_slot (w.user_data ws).topics ≡ 0
      → IsGuarded w
      → IsGuarded
          (subscribe_group_topic (set_data w ws (record (w.user_data ws) { group_id = id })) ws)
  enrol-IsGuarded w id on z g =
      let w1 : World = set_data w ws (record (w.user_data ws) { group_id = id }) in
      let own : ws == ws ≡ true = (==_iff ws ws).1 refl in
      subscribe_group_topic-IsGuarded w1 ws (rw own on) (rw own z) (relabel-IsGuarded w id z g)

module _ (now : Now) (ws op : ℕ) (msg : DaraChatMsg) where
  forward_invite-IsGuarded : (w : World) → IsGuarded w → IsGuarded (forward_invite now w msg op)
  unfolding forward_invite
  forward_invite-IsGuarded w g =
      IsGuarded-if _ w _ g (silent-IsGuarded _ _ refl (set_groups-IsGuarded w _ g))

  pub handle_group_invite-IsGuarded :
      (w : World)
      → (w.user_data ws).connected ≡ true
      → IsGuarded w
      → IsGuarded (handle_group_invite now w ws msg op)
  unfolding handle_group_invite
  handle_group_invite-IsGuarded w on g =
      let (started, info) =
        group_start_group now.seconds (get_new_group_id now.dis now.dis2) w.group_container
          msg.sender in
      elim (Bool-cases (is_empty (w.user_data ws).group_id)) [
        | inr some_group ↦ rw (some_group, handle_group_invite) (forward_invite-IsGuarded w g)
        | inl alone ↦ rw alone (
            IsGuarded-if (not (eq_ℤ info.error_code (pos 0))) (set_groups w started) _
              (set_groups-IsGuarded w started g)
              (forward_invite-IsGuarded _ (
                enrol-IsGuarded ws (set_groups w started) info.group_id on (ungrouped w ws alone g)
                  (set_groups-IsGuarded w _ g))))
      ]

  leave_solo_group-IsGuarded :
      (w : World)
      → (w.user_data ws).connected ≡ true
      → IsGuarded w
      → IsGuarded (leave_solo_group w ws msg.sender)
  unfolding leave_solo_group
  leave_solo_group-IsGuarded w on g =
      let w1 : World = remove_group_subscription w ws in
      relabel-IsGuarded ws (set_groups w1 (disband w1.group_container msg.sender).0) []
        (remove_group_subscription-count w ws g)
        (set_groups-IsGuarded w1 _ (remove_group_subscription-IsGuarded w ws on g))

  finish_group_join-IsGuarded :
      (w : World) (inviter : Text)
      → (w.user_data ws).connected ≡ true
      → IsGuarded w
      → IsGuarded (finish_group_join now w ws msg.sender inviter op)
  unfolding finish_group_join
  finish_group_join-IsGuarded w inviter on g =
      let (joined, info) = join now.seconds w.group_container msg.sender inviter in
      elim (Bool-cases (is_empty (w.user_data ws).group_id)) [
        | inr some_group ↦ rw (some_group, finish_group_join) g
        | inl alone ↦ rw alone (
            IsGuarded-if (not (eq_ℤ info.error_code (pos 0)) || is_empty info.group_id)
              (set_groups w joined) _ (set_groups-IsGuarded w joined g)
              (send_group_update_info-IsGuarded _ op _ (
                set_groups-IsGuarded _ _ (
                  enrol-IsGuarded ws (set_groups w joined) info.group_id on (ungrouped w ws alone g)
                    (set_groups-IsGuarded w _ g)))))
      ]

  pub handle_group_disband-IsGuarded :
      (w : World)
      → (w.user_data ws).connected ≡ true
      → IsGuarded w
      → IsGuarded (handle_group_disband w ws msg op)
  unfolding handle_group_disband
  handle_group_disband-IsGuarded w on g =
      let w1 : World = set_groups w (disband w.group_container msg.sender).0 in
      let g1 : IsGuarded w1 = set_groups-IsGuarded w _ g in
      let w2 : World = remove_group_subscription w1 ws in
      IsGuarded-if (is_empty (w.user_data ws).group_id) w _ g (
        send_group_update_info-IsGuarded _ op _ (
          silent-IsGuarded (set_data w2 ws (record (w2.user_data ws) { group_id = [] })) _ refl (
            relabel-IsGuarded ws w2 [] (remove_group_subscription-count w1 ws g1)
              (remove_group_subscription-IsGuarded w1 ws on g1))))

  pub handle_group_join-IsGuarded :
      (w : World)
      → (w.user_data ws).connected ≡ true
      → IsGuarded w
      → IsGuarded (handle_group_join now w ws msg op)
  unfolding handle_group_join
  handle_group_join-IsGuarded w on g =
      let w1 : World = set_groups w (remove_old_invites now.seconds w.group_container) in
      let g1 : IsGuarded w1 = set_groups-IsGuarded w _ g in
      let info : GroupInfo = get_group_info w1.group_container msg.sender in
      let target : GroupInfo = get_group_info w1.group_container msg.recipient in
      let solo : Bool = eq_ℤ info.member_count (pos 1) in
      let w2 : World = if solo then leave_solo_group w1 ws msg.sender else w1 in
      let g2 : IsGuarded w2 =
        IsGuarded-if solo (leave_solo_group w1 ws msg.sender) w1
          (leave_solo_group-IsGuarded w1 on g1) g1 in
      let on2 : (w2.user_data ws).connected ≡ true = elim (Bool-cases solo) [
        | inl h ↦ rw h (
            (Acts-SameIdentity (leave_solo_group-Acts now ws op msg refl w1 msg.sender)
              ws).connected
            ∙ on)
        | inr h ↦ rw h on
      ] in
      IsGuarded-if (not (check_has_invited w1.group_container msg.recipient msg.sender)) w1 _ g1 (
        IsGuarded-if
          (is_empty target.group_id || not (ltb_ℤ target.member_count (pos my_max_group_members)))
          w1 _ g1
          (IsGuarded-if (not (is_empty info.group_id) && text_eq info.group_id target.group_id) w1 _
            g1 (finish_group_join-IsGuarded w2 msg.recipient on2 g2)))

  pub handle_alive-IsGuarded : (w : World) → IsGuarded w → IsGuarded (handle_alive now w ws msg op)
  unfolding handle_alive
  handle_alive-IsGuarded w g = silent-IsGuarded _ _ refl (set_groups-IsGuarded w _ g)
