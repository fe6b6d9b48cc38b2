-- ===== src/Group/Info.antt =====
-- `GetGroupInfo`, `GetGroupInfoByGroupId`, `GetCurrentGroupId` and `GetUniqueGroupIds`: the
-- container's queries, each a loop over `MyGroups`.
use u_dara_chat.Base.Int.{pos}
use u_dara_chat.Base.{
  ℕ, suc, Bool, true, ◌&&◌, List, [], ◌∷◌, ◌++◌, Text, text_eq, is_empty, any_of, if◌then◌else◌,
}
use u_dara_chat.Group.Types.{
  GroupMember, GroupInfo, GroupContainer, new_group_info, group_is_not_member_of_any_group,
}

abbrev pub named : Text → GroupMember → Bool
named name m = text_eq m.name name

abbrev pub in_group : Text → GroupMember → Bool
in_group group_id m = text_eq m.group_id group_id

abbrev pub leads : Text → GroupMember → Bool
leads group_id m = in_group group_id m && m.is_leader

-- The first loop of `GetGroupInfo`: the group of the first member of that name.
unfoldable pub find_group_id : Text → List GroupMember → Text
find_group_id name [] = []
find_group_id name (m ∷ ms) = if named name m then m.group_id else find_group_id name ms

-- One round of the second loop; `lead` is what it assigns to `isLeader` at a leader.
abbrev pub collect_member : (GroupMember → Bool) → GroupMember → GroupInfo → GroupInfo
collect_member lead m info =
    let counted =
      if in_group info.group_id m
      then record info { group_members = info.group_members ++ m ∷ [] }
      else info in
    if leads info.group_id m
    then record counted { leader_name = m.name; is_leader = lead m }
    else counted

-- The second loop. The local counter is `count`; the loop's own writes to
-- `groupInfo.memberCount` are overwritten by it at the end.
unfoldable pub collect_members : (GroupMember → Bool) → List GroupMember → GroupInfo → ℕ → GroupInfo
collect_members lead [] info count = record info { member_count = pos count }
collect_members lead (m ∷ ms) info count =
    collect_members lead ms (collect_member lead m info)
      (if in_group info.group_id m then suc count else count)

unfoldable pub get_group_info : GroupContainer → Text → GroupInfo
get_group_info c member_name =
    let info = record new_group_info { group_id = find_group_id member_name c.my_groups } in
    if is_empty info.group_id
    then record info { error_code = group_is_not_member_of_any_group }
    else collect_members (named member_name) c.my_groups info 0

unfoldable pub get_current_group_id : GroupContainer → Text → GroupInfo
get_current_group_id c member_name = get_group_info c member_name

unfoldable pub get_group_info_by_group_id : GroupContainer → Text → GroupInfo
get_group_info_by_group_id c group_id =
    collect_members (λ _. true) c.my_groups (record new_group_info { group_id = group_id }) 0

-- `uniqueGroupIds.insert`, with the set as a list of distinct texts.
abbrev pub insert_unique : Text → List Text → List Text
insert_unique id ids = if any_of (text_eq id) ids then ids else ids ++ id ∷ []

unfoldable pub unique_ids_from : List GroupMember → List Text → List Text
unique_ids_from [] ids = ids
unique_ids_from (m ∷ ms) ids =
    unique_ids_from ms (if is_empty m.group_id then ids else insert_unique m.group_id ids)

-- The set's iteration order is the standard library's; here it is the order of insertion.
unfoldable pub get_unique_group_ids : GroupContainer → List Text
get_unique_group_ids c = unique_ids_from c.my_groups []
