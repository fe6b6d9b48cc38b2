-- ===== src/Server/Accepting.antt =====
-- An invitation that is accepted.
use u_dara_chat.Base.Int.{pos, ltb_ℤ}
use u_dara_chat.Base.{
  ℕ, ◌<◌, ◌≡◌, refl, sym, ap, ◌∙◌, ◌≢◌, true, false, [], Text, is_empty, not_empty, arith, inl, inr,
}
use u_dara_chat.Chat.Message.{DaraChatMsg}
use u_dara_chat.Group.Answers.{get_group_info-group_id, get_group_info-member_count}
use u_dara_chat.Group.Container.{group_join}
use u_dara_chat.Group.Count.{size}
use u_dara_chat.Group.Info.{get_group_info}
use u_dara_chat.Group.Invites.{remove_invite, remove_old_invites, check_has_invited}
use u_dara_chat.Group.Joining.{group_join_outcome}
use u_dara_chat.Group.Names.{group_of, group_of-group_join_other}
use u_dara_chat.Group.Types.{GroupInfo, GroupContainer, my_max_group_members}
use u_dara_chat.Server.Groups.{Now, send_group_update_info, finish_group_join, handle_group_join}
use u_dara_chat.Server.Keeps.{Keeps, subscribe_group_topic-Quiet}
use u_dara_chat.Server.Membership.{InStep, handle_group_join-Keeps}
use u_dara_chat.Server.State.{World, set_groups, set_data}

-- `b` has an invitation by `a` that is not too old, `a` is in a group with room, and `b` in none.
pub record MayJoin (now : Now) (c : GroupContainer) (a b : Text) : Type 0 where
  pub invited : check_has_invited (remove_old_invites now.seconds c) a b ≡ true
  pub named : a ≢ []
  pub grouped : group_of c a ≢ []
  pub room : size (group_of c a) c.my_groups < my_max_group_members
  pub alone : group_of c b ≡ []

module _ (now : Now) (ws op : ℕ) (a b : Text) where
  finish_group_join-joins :
      (w : World)
      → InStep ws b w
      → a ≢ []
      → group_of w.group_container a ≢ []
      → size (group_of w.group_container a) w.group_container.my_groups < my_max_group_members
      → group_of w.group_container b ≡ []
      → group_of (finish_group_join now w ws b a op).group_container b
        ≡ group_of w.group_container a
  unfolding finish_group_join send_group_update_info remove_invite
  finish_group_join-joins w s named grouped room alone =
      let c : GroupContainer = w.group_container in
      let r : GroupContainer × GroupInfo = group_join now.seconds c b a in
      let no_group : is_empty (w.user_data ws).group_id ≡ true = ap is_empty (s.step ∙ alone) in
      let other : a ≢ b = λ e. grouped (ap (group_of c) e ∙ alone) in
      elim (group_join_outcome now.seconds c b a s.sound) [
        | inl (inl (nameless, _), _) ↦ absurd (named nameless)
        | inl (inr (inl (_, none_of, _)), _) ↦ absurd (grouped none_of)
        | inl (inr (inr (inl (_, full, _))), _) ↦ absurd (omega (arith, full, room))
        | inl (inr (inr (inr (_, _, elsewhere, _))), _) ↦ absurd (elsewhere alone)
        | inr (_, _, _, own, _, answer, code) ↦
            let id : r.1.group_id ≡ group_of c a =
              ap (λ (i : GroupInfo). i.group_id) answer
              ∙ get_group_info-group_id r.0 a
              ∙ group_of-group_join_other now.seconds c b a a other in
            let filled : is_empty r.1.group_id ≡ false =
              not_empty r.1.group_id (λ e. grouped (sym id ∙ e)) in
            let w1 : World = set_groups w r.0 in
            let w2 : World =
              set_data w1 ws (record (w1.user_data ws) { group_id = r.1.group_id }) in
            rw (no_group, code, filled, finish_group_join)
              (ap (λ d. group_of d b) (subscribe_group_topic-Quiet w2 ws).groups ∙ own)
      ]

  expired-InStep :
      (w : World)
      → InStep ws b w
      → InStep ws b (set_groups w (remove_old_invites now.seconds w.group_container))
  unfolding remove_old_invites
  expired-InStep w s = record { step = s.step; sound = s.sound }

module _ (now : Now) (ws op : ℕ) (msg : DaraChatMsg) (w : World) (s : InStep ws msg.sender w)
    (m : MayJoin now w.group_container msg.recipient msg.sender) where
  abbrev w1 : World
  w1 = set_groups w (remove_old_invites now.seconds w.group_container)

  sound1 : InStep ws msg.sender w1
  sound1 = expired-InStep now ws op msg.recipient msg.sender w s

  grouped1 : group_of w1.group_container msg.recipient ≢ []
  unfolding remove_old_invites
  grouped1 = m.grouped

  room1 :
      size (group_of w1.group_container msg.recipient) w1.group_container.my_groups
      < my_max_group_members
  unfolding remove_old_invites
  room1 = m.room

  alone1 : group_of w1.group_container msg.sender ≡ []
  unfolding remove_old_invites
  alone1 = m.alone

  handle_group_join-finish :
      handle_group_join now w ws msg op ≡ finish_group_join now w1 ws msg.sender msg.recipient op
  unfolding handle_group_join
  handle_group_join-finish =
      let target : (get_group_info w1.group_container msg.recipient).group_id
          ≡ group_of w1.group_container msg.recipient =
        get_group_info-group_id w1.group_container msg.recipient in
      let found : is_empty (get_group_info w1.group_container msg.recipient).group_id ≡ false =
        not_empty _ (λ e. grouped1 (sym target ∙ e)) in
      let counted =
        get_group_info-member_count w1.group_container msg.recipient sound1.sound.grouped in
      let few : ltb_ℤ (get_group_info w1.group_container msg.recipient).member_count
            (pos my_max_group_members)
          ≡ true =
        rw counted (ground (arith, room1)) in
      let none_of : is_empty (get_group_info w1.group_container msg.sender).group_id ≡ true =
        ap is_empty (get_group_info-group_id w1.group_container msg.sender ∙ alone1) in
      let nobody : (get_group_info w1.group_container msg.sender).member_count ≡ pos 0 =
        get_group_info-member_count w1.group_container msg.sender sound1.sound.grouped
        ∙ rw (alone1, sound1.sound.grouped) refl in
      rw (m.invited, found, few, none_of, nobody, handle_group_join) refl

-- A `GroupJoin` message of a name that is in no group and has an invitation, not too old, of another
-- name, who is in a group with room, is a success: the name is then in the other one's group, its
-- socket's group id says so, and the other one is still in this group. The container has its
-- invariant, and the socket's group id was in step with it.
pub handle_group_join-MayJoin :
    (now : Now) (ws op : ℕ) (msg : DaraChatMsg) (w : World)
    → InStep ws msg.sender w
    → MayJoin now w.group_container msg.recipient msg.sender
    → (group_of (handle_group_join now w ws msg op).group_container msg.sender
        ≡ group_of w.group_container msg.recipient)
      × (((handle_group_join now w ws msg op).user_data ws).group_id
          ≡ group_of w.group_container msg.recipient)
      × (group_of (handle_group_join now w ws msg op).group_container msg.recipient
          ≡ group_of w.group_container msg.recipient)
unfolding remove_old_invites
handle_group_join-MayJoin now ws op msg w s m =
    let v : World = handle_group_join now w ws msg op in
    let kept : Keeps ws msg.sender w v = handle_group_join-Keeps now ws op msg w s in
    let in_group : group_of v.group_container msg.sender
        ≡ group_of w.group_container msg.recipient =
      ap (λ (u : World). group_of u.group_container msg.sender)
        (handle_group_join-finish now ws op msg w s m)
      ∙ finish_group_join-joins now ws op msg.recipient msg.sender (w1 now ws op msg w s m)
          (sound1 now ws op msg w s m) m.named (grouped1 now ws op msg w s m)
          (room1 now ws op msg w s m) (alone1 now ws op msg w s m) in
    (
      in_group,
      kept.own s.step ∙ in_group,
      kept.elsewhere msg.recipient (λ e. m.grouped (ap (group_of w.group_container) e ∙ m.alone)),
    )
