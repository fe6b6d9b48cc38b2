-- ===== src/Group/Container.antt =====
-- The operations of `GroupContainer` on memberships. Each returns the container it leaves and the
-- `GroupInfo` that it answers; `now` is `std::time(nullptr)`.
use u_dara_chat.Base.Int.{pos, ◌+ℤ◌, ltb_ℤ, eq_ℤ}
use u_dara_chat.Base.{
  ℕ, Bool, true, false, not, ◌&&◌, List, [], ◌∷◌, ◌++◌, Text, text_eq, is_empty, starts_with,
  keep_if, if◌then◌else◌,
}
use u_dara_chat.Group.Info.{named, in_group, get_group_info}
use u_dara_chat.Group.Types.{
  GroupMember, GroupInviteData, GroupInfo, GroupContainer, new_group_member, new_group_info,
  my_group_prefix, my_max_group_members, group_success, group_is_in_another_group,
  group_is_not_leader, group_is_not_member, group_error_full, group_is_already_in_group,
  group_leader_empty, group_member_already_in_group, group_leader_has_no_group,
  group_cannot_kick_self,
}

-- A member as `GroupStartGroup` and `GroupJoin` make it.
abbrev pub online_member : ℕ → Text → Text → Bool → GroupMember
online_member now name group_id is_leader = record (new_group_member now) {
  name = name;
  group_id = group_id;
  is_leader = is_leader;
  is_online = true;
}

abbrev pub push_member : GroupContainer → GroupMember → GroupContainer
push_member c m = record c { my_groups = c.my_groups ++ m ∷ [] }

-- `new_id` is what `GetNewGroupId` returned.
unfoldable pub group_start_group : ℕ → Text → GroupContainer → Text → GroupContainer × GroupInfo
group_start_group now new_id c leader_name =
    let ret_info = get_group_info c leader_name in
    if not (is_empty ret_info.group_id)
    then (c, record ret_info { error_code = group_member_already_in_group })
    else let new_member = online_member now leader_name new_id true in
      (
        push_member c new_member,
        record {
          group_id = new_member.group_id;
          leader_name = new_member.name;
          is_leader = new_member.is_leader;
          member_count = pos 1;
          error_code = pos 0;
          group_members = new_member ∷ [];
        },
      )

unfoldable pub group_join : ℕ → GroupContainer → Text → Text → GroupContainer × GroupInfo
group_join now c member_name leader_name =
    let leader_info = get_group_info c leader_name in
    let member_info = get_group_info c member_name in
    if is_empty leader_name
    then (c, record new_group_info { error_code = group_leader_empty })
    else if is_empty leader_info.group_id
    then (c, record leader_info { error_code = group_leader_has_no_group })
    else if not (ltb_ℤ leader_info.member_count (pos my_max_group_members))
    then (c, record leader_info { group_id = []; error_code = group_error_full })
    else if not (is_empty member_info.group_id)
    then (c, record member_info { error_code = group_member_already_in_group })
    else let new_member = online_member now member_name leader_info.group_id false in
      (
        push_member c new_member,
        record leader_info {
          member_count = leader_info.member_count +ℤ pos 1;
          group_members = leader_info.group_members ++ new_member ∷ [];
        },
      )

-- `GroupInvite` changes nothing: it only answers whether the invitation is allowed.
unfoldable pub group_invite : GroupContainer → Text → Text → GroupInfo
group_invite c member_name leader_name =
    let leader_info = get_group_info c leader_name in
    let member_info = get_group_info c member_name in
    if not leader_info.is_leader
    then record leader_info {
      group_id = [];
      member_count = pos 0;
      error_code = group_is_not_leader;
    }
    else if not (is_empty member_info.group_id) && text_eq member_info.group_id leader_info.group_id
    then record member_info { error_code = group_is_already_in_group }
    else if not (is_empty member_info.group_id) && ltb_ℤ (pos 1) member_info.member_count
    then record member_info {
      error_code = group_is_in_another_group;
      group_id = [];
      member_count = pos 0;
    }
    else record leader_info { error_code = group_success }

-- `MyGroups.erase(remove_if(name == memberName))`.
abbrev pub erase_named : Text → List GroupMember → List GroupMember
erase_named name = keep_if (λ m. not (named name m))

unfoldable pub group_kick_member : GroupContainer → Text → Text → GroupContainer × GroupInfo
group_kick_member c member_name leader_name =
    let leader_info = get_group_info c leader_name in
    let member_info = get_group_info c member_name in
    let kicked = record c { my_groups = erase_named member_name c.my_groups } in
    if text_eq member_name leader_name
    then (c, record new_group_info { error_code = group_cannot_kick_self })
    else if not leader_info.is_leader
    then (
      c,
      record leader_info { error_code = group_is_not_leader; group_id = []; member_count = pos 0 },
    )
    else if not (text_eq member_info.group_id leader_info.group_id)
    then (c, record member_info { error_code = group_is_not_member })
    else (kicked, get_group_info kicked leader_name)

-- `AssignLeader`: the loop, with its flag `found`.
unfoldable pub assign_from : Text → Bool → List GroupMember → List GroupMember
assign_from group_id found [] = []
assign_from group_id found (m ∷ ms) =
    if in_group group_id m
    then record m { is_leader = not found } ∷ assign_from group_id true ms
    else m ∷ assign_from group_id found ms

unfoldable pub assign_leader : GroupContainer → Text → GroupContainer
assign_leader c group_id = record c { my_groups = assign_from group_id false c.my_groups }

unfoldable pub group_disband : GroupContainer → Text → GroupContainer × GroupInfo
group_disband c member_name =
    let member_info = get_group_info c member_name in
    let was_leader = text_eq member_info.leader_name member_name in
    let invites =
      if eq_ℤ member_info.member_count (pos 1)
      then keep_if (λ (i : GroupInviteData). not (text_eq i.leader_name member_name)) c.my_invites
      else c.my_invites in
    let left = record c { my_groups = erase_named member_name c.my_groups; my_invites = invites } in
    (
      if was_leader then assign_leader left member_info.group_id else left,
      record member_info {
        error_code = group_success;
        group_id = [];
        member_count = pos 0;
        leader_name = [];
      },
    )

-- The loop of `AliveMsg`: the first member of that name only.
unfoldable pub alive_from : ℕ → GroupMember → List GroupMember → List GroupMember
alive_from now alive [] = []
alive_from now alive (m ∷ ms) =
    if named alive.name m
    then record m { zone = alive.zone; health = alive.health; store_time = now; is_online = true }
      ∷ ms
    else m ∷ alive_from now alive ms

unfoldable pub alive_msg : ℕ → GroupContainer → GroupMember → GroupContainer
alive_msg now c alive = record c { my_groups = alive_from now alive c.my_groups }

abbrev pub bool_eq : Bool → Bool → Bool
bool_eq true b = b
bool_eq false b = not b

-- The loop of `SetMemberOnline`, with its early return.
unfoldable pub online_from : ℕ → Text → Bool → List GroupMember → List GroupMember × Bool
online_from now name online [] = ([], false)
online_from now name online (m ∷ ms) =
    let (rest, changed) = online_from now name online ms in
    if named name m
    then (
      record m { is_online = online; store_time = if online then now else m.store_time } ∷ ms,
      not (bool_eq m.is_online online),
    )
    else (m ∷ rest, changed)

unfoldable pub set_member_online : ℕ → GroupContainer → Text → Bool → GroupContainer × Bool
set_member_online now c member_name online =
    let (groups, changed) = online_from now member_name online c.my_groups in
    (record c { my_groups = groups }, changed)

-- `RemoveLDGroupMembers` has an empty body.
unfoldable pub remove_ld_group_members : GroupContainer → GroupContainer
remove_ld_group_members c = c

-- `GetGroupTopic`.
unfoldable pub get_group_topic : Text → Text
get_group_topic group_id =
    if is_empty group_id
    then []
    else if starts_with my_group_prefix group_id
    then group_id
    else my_group_prefix ++ group_id
