-- ===== src/Group/Reach.antt =====
-- Histories of the container: any operations, in any order, from an empty container.
use u_dara_chat.Base.{ℕ, ◌≡◌, Bool, Text}
use u_dara_chat.Group.Container.{
  group_start_group, group_join, group_kick_member, group_disband, alive_msg, set_member_online,
  remove_ld_group_members,
}
use u_dara_chat.Group.Count.{size}
use u_dara_chat.Group.Invariant.{nil-WellFormed}
use u_dara_chat.Group.Invites.{add_invite, remove_invite, remove_old_invites}
use u_dara_chat.Group.NewId.{get_new_group_id, get_new_group_id-ne-nil}
use u_dara_chat.Group.Steps.{
  IsWellFormed, group_start_group-WellFormed, group_join-WellFormed, group_kick_member-WellFormed,
  group_disband-WellFormed, alive_msg-WellFormed, set_member_online-WellFormed,
}
use u_dara_chat.Group.Types.{GroupMember, GroupContainer, new_group_container}

-- The id of a new group is drawn at random; a step assumes that no group has it already.
pub data Step : GroupContainer → GroupContainer → Type 0 where
  start :
      (now : ℕ) (dis : ℕ → ℕ) (dis2 : ℕ) (c : GroupContainer) (leader : Text)
      → size (get_new_group_id dis dis2) c.my_groups ≡ 0
      → Step c (group_start_group now (get_new_group_id dis dis2) c leader).0
  join :
      (now : ℕ) (c : GroupContainer) (member leader : Text)
      → Step c (group_join now c member leader).0
  kick : (c : GroupContainer) (member leader : Text) → Step c (group_kick_member c member leader).0
  disband : (c : GroupContainer) (member : Text) → Step c (group_disband c member).0
  alive : (now : ℕ) (c : GroupContainer) (m : GroupMember) → Step c (alive_msg now c m)
  online :
      (now : ℕ) (c : GroupContainer) (member : Text) (b : Bool)
      → Step c (set_member_online now c member b).0
  scheduled : (c : GroupContainer) → Step c (remove_ld_group_members c)
  invite :
      (now : ℕ) (c : GroupContainer) (leader member : Text)
      → Step c (add_invite now c leader member)
  uninvite : (c : GroupContainer) (leader member : Text) → Step c (remove_invite c leader member)
  expire : (now : ℕ) (c : GroupContainer) → Step c (remove_old_invites now c)

pub data Reach : GroupContainer → Type 0 where
  here : Reach new_group_container
  next : {c d : GroupContainer} → Reach c → Step c d → Reach d

pub Step-WellFormed : {c d : GroupContainer} → Step c d → IsWellFormed c → IsWellFormed d
unfolding remove_ld_group_members add_invite remove_invite remove_old_invites
Step-WellFormed (start now dis dis2 c n f) v =
    group_start_group-WellFormed now _ c n (get_new_group_id-ne-nil dis dis2) f v
Step-WellFormed (join now c m n) v = group_join-WellFormed now c m n v
Step-WellFormed (kick c m n) v = group_kick_member-WellFormed c m n v
Step-WellFormed (disband c n) v = group_disband-WellFormed c n v
Step-WellFormed (alive now c m) v = alive_msg-WellFormed now c m v
Step-WellFormed (online now c n b) v = set_member_online-WellFormed now c n b v
Step-WellFormed (scheduled c) v = v
Step-WellFormed (invite now c l m) v = v
Step-WellFormed (uninvite c l m) v = v
Step-WellFormed (expire now c) v = v

-- In every container that operations reach from an empty one, with a fresh id at each start of a
-- group: a name is in one group at most, a group has six members at most, a group with members has
-- exactly one leader, and nobody is a member of the empty group id.
pub Reach-WellFormed : {c : GroupContainer} → Reach c → IsWellFormed c
Reach-WellFormed here = nil-WellFormed
Reach-WellFormed (next r s) = Step-WellFormed s (Reach-WellFormed r)
