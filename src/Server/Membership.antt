-- ===== src/Server/Membership.antt =====
-- The group messages of a socket keep the other sockets' group ids, the other names' groups, and the
-- socket's own group id in step with the container.
use u_dara_chat.Base.Int.{pos, eq_ℤ, ltb_ℤ}
use u_dara_chat.Base.{
  ℕ, ◌≡◌, refl, sym, ap, ◌∙◌, ◌≢◌, Bool, true, false, not, ◌&&◌, ◌||◌, [], Text, is_empty,
  is_empty_iff, text_eq, if◌then◌else◌, Bool-cases, inl, inr,
}
use u_dara_chat.Chat.Message.{DaraChatMsg}
use u_dara_chat.Group.Container.{group_start_group, group_join, group_disband}
use u_dara_chat.Group.Info.{get_group_info}
use u_dara_chat.Group.Invites.{add_invite, remove_invite, remove_old_invites, check_has_invited}
use u_dara_chat.Group.Leaving.{group_disband_outcome}
use u_dara_chat.Group.Names.{
  group_of, group_of-alive_msg, group_of-group_join_other, group_of-group_start_group,
  group_join-JoinAnswer,
}
use u_dara_chat.Group.NewId.{get_new_group_id}
use u_dara_chat.Group.Presence.{
  Marks, Marks-refl, Marks-trans, group_start_group-Marks, group_join-Marks, group_disband-Marks,
  alive_msg-Marks,
}
use u_dara_chat.Group.Steps.{IsWellFormed, group_disband-WellFormed}
use u_dara_chat.Group.Types.{GroupInfo, GroupContainer, my_max_group_members}
use u_dara_chat.Server.Groups.{
  Now, forward_invite, handle_group_invite, leave_solo_group, finish_group_join, handle_group_join,
  handle_group_disband, handle_alive,
}
use u_dara_chat.Server.Keeps.{
  Quiet-refl, emit-Quiet, Keeps, Quiet-Keeps, Keeps-trans, Keeps-if, regroup-Keeps, settle-Keeps,
  remove_group_subscription-Quiet, subscribe_group_topic-Quiet, send_group_update_info-Quiet,
}
use u_dara_chat.Server.State.{World, set_groups, set_data}
use u_dara_chat.Server.Topics.{remove_group_subscription, subscribe_group_topic}

-- The socket's group id is the one that the container has for the name, and the container is sound.
pub record InStep (ws : ℕ) (n : Text) (w : World) : Type 0 where
  pub step : (w.user_data ws).group_id ≡ group_of w.group_container n
  pub sound : IsWellFormed w.group_container

InStep-if :
    {ws : ℕ} {n : Text} {u v : World} (b : Bool)
    → InStep ws n u
    → InStep ws n v
    → InStep ws n (if b then u else v)
InStep-if true p q = p
InStep-if false p q = q

module _ (now : Now) (ws op : ℕ) (msg : DaraChatMsg) where
  forward_invite-Keeps : (w : World) → Keeps ws msg.sender w (forward_invite now w msg op)
  unfolding forward_invite remove_old_invites add_invite
  forward_invite-Keeps w = Keeps-if _ (Quiet-Keeps Quiet-refl) (
      Keeps-trans (regroup-Keeps w _ (λ m. refl) Marks-refl)
        (Quiet-Keeps (emit-Quiet _ Quiet-refl)))

  -- A group is started only where the socket has none.
  pub handle_group_invite-Keeps :
      (w : World)
      → InStep ws msg.sender w
      → Keeps ws msg.sender w (handle_group_invite now w ws msg op)
  unfolding handle_group_invite
  handle_group_invite-Keeps w s = elim (Bool-cases (is_empty (w.user_data ws).group_id)) [
    | inr some_group ↦ rw (some_group, handle_group_invite) (forward_invite-Keeps w)
    | inl no_group ↦
        let id : Text = get_new_group_id now.dis now.dis2 in
        let alone : group_of w.group_container msg.sender ≡ [] =
          sym s.step ∙ (is_empty_iff _).0 no_group in
        let (code, own, elsewhere) =
          group_of-group_start_group now.seconds id w.group_container msg.sender s.sound alone in
        let started : GroupContainer × GroupInfo =
          group_start_group now.seconds id w.group_container msg.sender in
        rw (no_group, code, handle_group_invite)
          (Keeps-trans
            (settle-Keeps w (set_groups w started.0) started.1.group_id (λ k. refl) elsewhere own
              (group_start_group-Marks msg.sender now.seconds id w.group_container))
            (Keeps-trans (Quiet-Keeps (subscribe_group_topic-Quiet _ ws)) (forward_invite-Keeps _)))
  ]

  leave_solo_group-Keeps :
      (w : World)
      → IsWellFormed w.group_container
      → Keeps ws msg.sender w (leave_solo_group w ws msg.sender)
  unfolding leave_solo_group
  leave_solo_group-Keeps w v =
      let w1 : World = remove_group_subscription w ws in
      let quiet = remove_group_subscription-Quiet w ws in
      let (left, kept, _, _, _) =
        group_disband_outcome w1.group_container msg.sender (rw quiet.groups v) in
      settle-Keeps w (set_groups w1 (group_disband w1.group_container msg.sender).0) [] quiet.ids
        (λ m ne. kept m ne ∙ ap (λ c. group_of c m) quiet.groups) (sym left)
        (Marks-trans (rw quiet.groups Marks-refl)
          (group_disband-Marks msg.sender w1.group_container))

  finish_group_join-Keeps :
      (w : World) (l : Text)
      → InStep ws msg.sender w
      → Keeps ws msg.sender w (finish_group_join now w ws msg.sender l op)
  unfolding finish_group_join remove_invite
  finish_group_join-Keeps w l s = elim (Bool-cases (is_empty (w.user_data ws).group_id)) [
    | inr some_group ↦ rw (some_group, finish_group_join) (Quiet-Keeps Quiet-refl)
    | inl no_group ↦
        let alone : group_of w.group_container msg.sender ≡ [] =
          sym s.step ∙ (is_empty_iff _).0 no_group in
        let r : GroupContainer × GroupInfo =
          group_join now.seconds w.group_container msg.sender l in
        let elsewhere : (m : Text)
            → m ≢ msg.sender
            → group_of r.0 m ≡ group_of w.group_container m =
          λ m ne. group_of-group_join_other now.seconds w.group_container msg.sender l m ne in
        let marks : Marks msg.sender w.group_container.my_groups r.0.my_groups =
          group_join-Marks msg.sender now.seconds w.group_container l in
        let unmoved : group_of r.0 msg.sender ≡ [] → Keeps ws msg.sender w (set_groups w r.0) = λ e.
          record {
            others = λ k ne. refl;
            elsewhere = elsewhere;
            own = λ q. q ∙ alone ∙ sym e;
            marks = marks;
          } in
        elim (group_join-JoinAnswer now.seconds w.group_container msg.sender l s.sound alone) [
          | inl (bad, none_of) ↦ rw (no_group, bad, finish_group_join) (unmoved none_of)
          | inr (code, own) ↦
              let u : World = set_groups w r.0 in
              let w1 : World =
                set_data u ws (record (u.user_data ws) { group_id = r.1.group_id }) in
              let w2 : World = subscribe_group_topic w1 ws in
              elim (Bool-cases (is_empty r.1.group_id)) [
                | inl blank ↦
                    rw (no_group, code, blank, finish_group_join)
                      (unmoved (sym own ∙ (is_empty_iff _).0 blank))
                | inr filled ↦
                    rw (no_group, code, filled, finish_group_join)
                      (Keeps-trans (settle-Keeps w u r.1.group_id (λ k. refl) elsewhere own marks) (
                        Keeps-trans (Quiet-Keeps (subscribe_group_topic-Quiet w1 ws)) (
                          Keeps-trans
                            (regroup-Keeps w2 (remove_invite w2.group_container l msg.sender)
                              (λ m. refl) Marks-refl)
                            (Quiet-Keeps (send_group_update_info-Quiet _ op _)))))
              ]
        ]
  ]

  leave_solo_group-InStep :
      (w : World) → InStep ws msg.sender w → InStep ws msg.sender (leave_solo_group w ws msg.sender)
  unfolding leave_solo_group
  leave_solo_group-InStep w s = record {
    step = (leave_solo_group-Keeps w s.sound).own s.step;
    sound =
        group_disband-WellFormed (remove_group_subscription w ws).group_container msg.sender
          (rw (remove_group_subscription-Quiet w ws).groups s.sound);
  }

  pub handle_group_join-Keeps :
      (w : World)
      → InStep ws msg.sender w
      → Keeps ws msg.sender w (handle_group_join now w ws msg op)
  unfolding handle_group_join remove_old_invites
  handle_group_join-Keeps w s =
      let w1 : World = set_groups w (remove_old_invites now.seconds w.group_container) in
      let expired : Keeps ws msg.sender w w1 =
        regroup-Keeps w (remove_old_invites now.seconds w.group_container) (λ m. refl) Marks-refl in
      let s1 : InStep ws msg.sender w1 = record { step = s.step; sound = s.sound } in
      let info : GroupInfo = get_group_info w1.group_container msg.sender in
      let target : GroupInfo = get_group_info w1.group_container msg.recipient in
      let solo : Bool = eq_ℤ info.member_count (pos 1) in
      let w2 : World = if solo then leave_solo_group w1 ws msg.sender else w1 in
      let left : Keeps ws msg.sender w1 w2 =
        Keeps-if solo (leave_solo_group-Keeps w1 s1.sound) (Quiet-Keeps Quiet-refl) in
      let s2 : InStep ws msg.sender w2 = InStep-if solo (leave_solo_group-InStep w1 s1) s1 in
      Keeps-if (not (check_has_invited w1.group_container msg.recipient msg.sender)) expired (
        Keeps-if
          (is_empty target.group_id || not (ltb_ℤ target.member_count (pos my_max_group_members)))
          expired
          (Keeps-if (not (is_empty info.group_id) && text_eq info.group_id target.group_id) expired
            (Keeps-trans expired (Keeps-trans left (finish_group_join-Keeps w2 msg.recipient s2)))))

  pub handle_alive-Keeps : (w : World) → Keeps ws msg.sender w (handle_alive now w ws msg op)
  unfolding handle_alive
  handle_alive-Keeps w =
      Keeps-trans
        (regroup-Keeps w _ (group_of-alive_msg now.seconds w.group_container _)
          (alive_msg-Marks msg.sender now.seconds w.group_container _ refl))
        (Quiet-Keeps (emit-Quiet _ Quiet-refl))

  pub handle_group_disband-Keeps :
      (w : World)
      → IsWellFormed w.group_container
      → Keeps ws msg.sender w (handle_group_disband w ws msg op)
  unfolding handle_group_disband
  handle_group_disband-Keeps w v =
      let w1 : World = set_groups w (group_disband w.group_container msg.sender).0 in
      let w2 : World = remove_group_subscription w1 ws in
      let quiet = remove_group_subscription-Quiet w1 ws in
      let (left, kept, _, _, _) = group_disband_outcome w.group_container msg.sender v in
      Keeps-if _ (Quiet-Keeps Quiet-refl) (
        Keeps-trans
          (settle-Keeps w w2 [] quiet.ids (λ m ne. ap (λ c. group_of c m) quiet.groups ∙ kept m ne)
            (sym (ap (λ c. group_of c msg.sender) quiet.groups ∙ left))
            (Marks-trans (group_disband-Marks msg.sender w.group_container)
              (rw quiet.groups Marks-refl)))
          (Keeps-trans (Quiet-Keeps (emit-Quiet _ Quiet-refl))
            (Quiet-Keeps (send_group_update_info-Quiet _ op _))))
