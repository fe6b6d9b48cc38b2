-- ===== src/Group/Switching.antt =====
-- Leaving a solo group and joining another, as the server's `GroupJoin` handler does.
use u_dara_chat.Base.{
  ℕ, ◌≤◌, ◌<◌, ◌≡◌, sym, ap, ◌∙◌, ◌≢◌, inl, inr, false, [], Text, text_eq, arith, Bool-cases,
}
use u_dara_chat.Group.Container.{erase_named, group_join, group_disband, assign_leader}
use u_dara_chat.Group.Count.{size, size-erase}
use u_dara_chat.Group.Info.{find_group_id, get_group_info}
use u_dara_chat.Group.Joining.{group_join_outcome}
use u_dara_chat.Group.Leader.{size-assign}
use u_dara_chat.Group.Leaving.{group_disband_outcome}
use u_dara_chat.Group.Steps.{IsWellFormed, group_disband-WellFormed}
use u_dara_chat.Group.Types.{GroupContainer, my_max_group_members}

size-disband :
    (c : GroupContainer) (m g : Text) → size g (group_disband c m).0.my_groups ≤ size g c.my_groups
unfolding group_disband assign_leader
size-disband c m g = elim (Bool-cases (text_eq (get_group_info c m).leader_name m)) [
  | inl h ↦
      rw (h, size-assign g (get_group_info c m).group_id false (erase_named m c.my_groups))
        (omega (arith, size-erase m g c.my_groups))
  | inr h ↦ rw h (omega (arith, size-erase m g c.my_groups))
]

-- In a well-formed container, a character who leaves its group to join a named character who is in
-- another group with room is in that group afterwards.
pub group_disband-group_join :
    (now : ℕ) (c : GroupContainer) (m n : Text)
    → IsWellFormed c
    → n ≢ []
    → find_group_id n c.my_groups ≢ []
    → find_group_id n c.my_groups ≢ find_group_id m c.my_groups
    → size (find_group_id n c.my_groups) c.my_groups < my_max_group_members
    → find_group_id m (group_join now (group_disband c m).0 m n).0.my_groups
      ≡ find_group_id n c.my_groups
group_disband-group_join now c m n v named grouped other room =
    let ne : n ≢ m = λ e. other (ap (λ k. find_group_id k c.my_groups) e) in
    let (left, kept, _, _, _) = group_disband_outcome c m v in
    let same : find_group_id n (group_disband c m).0.my_groups ≡ find_group_id n c.my_groups =
      kept n ne in
    elim (group_join_outcome now (group_disband c m).0 m n (group_disband-WellFormed c m v)) [
      | inr (_, _, _, e, _, _, _) ↦ e ∙ same
      | inl (inl (a, b), _) ↦ absurd (named a)
      | inl (inr (inl (a, b, d)), _) ↦ absurd (grouped (sym same ∙ b))
      | inl (inr (inr (inl (a, b, d))), _) ↦
          absurd (omega (arith, room, rw same at b, size-disband c m (find_group_id n c.my_groups)))
      | inl (inr (inr (inr (a, b, d, e))), _) ↦ absurd (d left)
    ]
