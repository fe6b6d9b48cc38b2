-- ===== src/Group/Query.antt =====
-- What the container's queries answer: the loops against filters and counts.
use u_dara_chat.Base.Int.{pos}
use u_dara_chat.Base.{
  ℕ, ◌+◌, ◌≡◌, ◌∙◌, ◌≢◌, inl, inr, Bool, true, false, List, [], ◌∷◌, ◌++◌, Text, is_empty,
  is_empty_iff, count_if, keep_if, append_assoc, append-nil, arith, if◌then◌else◌, Bool-cases,
}
use u_dara_chat.Group.Info.{
  named, in_group, leads, find_group_id, collect_members, get_group_info,
  get_group_info_by_group_id,
}
use u_dara_chat.Group.Count.{size}
use u_dara_chat.Group.Types.{
  GroupMember, GroupInfo, GroupContainer, new_group_info, group_is_not_member_of_any_group,
}

-- The value of `f` at the last leader of the group, or `acc` if there is none.
abbrev pub last_leader {ℓ} : {A : Type ℓ} → Text → (GroupMember → A) → A → List GroupMember → A
last_leader g f acc [] = acc
last_leader g f acc (m ∷ ms) = last_leader g f (if leads g m then f m else acc) ms

-- The description of an answer for the group `g`, with `lead` as the test for `isLeader`.
abbrev pub described : (GroupMember → Bool) → Text → List GroupMember → GroupInfo
described lead g ms = record {
  group_id = g;
  leader_name = last_leader g (λ m. m.name) [] ms;
  is_leader = last_leader g lead false ms;
  member_count = pos (size g ms);
  error_code = pos 0;
  group_members = keep_if (in_group g) ms;
}

collect_members_lem :
    (lead : GroupMember → Bool) (ms : List GroupMember) (info : GroupInfo) (k : ℕ)
    → collect_members lead ms info k ≡ record info {
      leader_name = last_leader info.group_id (λ m. m.name) info.leader_name ms;
      is_leader = last_leader info.group_id lead info.is_leader ms;
      member_count = pos (k + size info.group_id ms);
      group_members = info.group_members ++ keep_if (in_group info.group_id) ms;
    }
unfolding collect_members count_if keep_if
collect_members_lem lead [] info k = ground (arith, append-nil info.group_members)
collect_members_lem lead (m ∷ ms) info k = elim (Bool-cases (in_group info.group_id m)) [
  | inl i ↦ elim (Bool-cases m.is_leader) [
    | inl l ↦
        rw (i, l)
          (collect_members_lem lead ms _ _
            ∙ ground (
              arith,
              append_assoc info.group_members (m ∷ []) (keep_if (in_group info.group_id) ms),
            ))
    | inr l ↦
        rw (i, l)
          (collect_members_lem lead ms _ _
            ∙ ground (
              arith,
              append_assoc info.group_members (m ∷ []) (keep_if (in_group info.group_id) ms),
            ))
  ]
  | inr i ↦ rw i (collect_members_lem lead ms _ _ ∙ ground arith)
]

-- The answer for a group id is its description: the members are those of that id in their order,
-- the count is their number, and the leader is the last one of them that is marked as leader, with
-- no name when there is none.
pub get_group_info_by_group_id_lem :
    (c : GroupContainer) (g : Text)
    → get_group_info_by_group_id c g ≡ described (λ _. true) g c.my_groups
unfolding get_group_info_by_group_id
get_group_info_by_group_id_lem c g = collect_members_lem (λ _. true) c.my_groups _ 0 ∙ ground arith

pub get_group_info_absent :
    (c : GroupContainer) (n : Text)
    → find_group_id n c.my_groups ≡ []
    → get_group_info c n ≡ record new_group_info { error_code = group_is_not_member_of_any_group }
unfolding get_group_info
get_group_info_absent c n e = ground arith

pub get_group_info_present :
    (c : GroupContainer) (n : Text)
    → find_group_id n c.my_groups ≢ []
    → get_group_info c n ≡ described (named n) (find_group_id n c.my_groups) c.my_groups
unfolding get_group_info
get_group_info_present c n e = elim (Bool-cases (is_empty (find_group_id n c.my_groups))) [
  | inl h ↦ absurd (e ((is_empty_iff _).0 h))
  | inr h ↦ rw h (collect_members_lem (named n) c.my_groups _ 0 ∙ ground arith)
]
