-- ===== src/Group/Leaving.antt =====
-- What `GroupKickMember`, `GroupDisband` and `AssignLeader` do, branch by branch.
use u_dara_chat.Base.Int.{pos, eq_ℤ}
use u_dara_chat.Base.{
  ◌≤◌, ◌≡◌, refl, ◌∙◌, ◌≢◌, ◌↔◌, ◌⊎◌, inl, inr, true, false, not, List, [], ◌∷◌, Option, none, some,
  Text, text_eq, text_eq_iff, text_eq_refl, text_ne, text_cases, count_if, keep_if, ◌==◌, arith,
  if◌then◌else◌, Bool-cases,
}
use u_dara_chat.Group.Answers.{
  get_group_info-group_id, get_group_info-member_count, last_leader-named_only,
}
use u_dara_chat.Group.Container.{
  group_kick_member, group_disband, assign_from, assign_leader, erase_named,
}
use u_dara_chat.Group.Count.{occurrences, size, leads_named, in_named-elsewhere, leads_named-le}
use u_dara_chat.Group.Leader.{last_leader_unique}
use u_dara_chat.Group.Info.{in_group, find_group_id, get_group_info}
use u_dara_chat.Group.Lookup.{
  find_group_id-erase_self, find_group_id-erase_other, find_group_id-assign,
}
use u_dara_chat.Group.Query.{get_group_info_present}
use u_dara_chat.Group.Steps.{IsWellFormed, get_group_info-leads, group_disband-WellFormed}
use u_dara_chat.Group.Types.{
  GroupMember, GroupInviteData, GroupInfo, GroupContainer, group_cannot_kick_self,
  group_is_not_leader, group_is_not_member, group_success,
}

-- The character leads the group that the lookup finds for it.
abbrev pub Leads : GroupContainer → Text → Type 0
Leads c n =
    (find_group_id n c.my_groups ≢ [])
    × (1 ≤ count_if (leads_named n (find_group_id n c.my_groups)) c.my_groups)

-- In a well-formed container, `isLeader` in the answer of `GetGroupInfo` is true exactly if a member
-- of that name leads the group that the name is found in.
pub is_leader-Leads :
    (c : GroupContainer) (n : Text)
    → IsWellFormed c
    → ((get_group_info c n).is_leader ≡ true) ↔ Leads c n
is_leader-Leads c n v = (
  get_group_info-leads c n,
  λ l. rw (get_group_info_present c n l.0) (
      last_leader-named_only n (find_group_id n c.my_groups) false c.my_groups
        (omega (arith, v.led (find_group_id n c.my_groups))) l.1),
)

abbrev pub KickRefused : GroupContainer → Text → Text → GroupInfo → Type 0
KickRefused c m n r =
    ((m ≡ n) × (r.error_code ≡ group_cannot_kick_self))
    ⊎ ((m ≢ n) × (¬ Leads c n) × (r.error_code ≡ group_is_not_leader))
    ⊎ ((m ≢ n)
        × Leads c n
        × (find_group_id m c.my_groups ≢ find_group_id n c.my_groups)
        × (r.error_code ≡ group_is_not_member))

abbrev pub Kicked : GroupContainer → Text → Text → GroupContainer × GroupInfo → Type 0
Kicked c m n r =
    (m ≢ n)
    × Leads c n
    × (find_group_id m c.my_groups ≡ find_group_id n c.my_groups)
    × (find_group_id m r.0.my_groups ≡ [])
    × ((k : Text) → k ≢ m → find_group_id k r.0.my_groups ≡ find_group_id k c.my_groups)
    × (r.0.my_invites ≡ c.my_invites)
    × (r.1 ≡ get_group_info r.0 n)

-- Kicking, in a well-formed container: either the answer has the code of the first guard that
-- fails (oneself, not by a leader, not a member of the leader's group) and nothing changes; or no
-- guard fails, the kicked character is then in no group, every other character's group and the
-- invitations are as before, and the answer is what `GetGroupInfo` gives the leader afterwards.
pub group_kick_member_outcome :
    (c : GroupContainer) (m n : Text)
    → IsWellFormed c
    → (KickRefused c m n (group_kick_member c m n).1 × ((group_kick_member c m n).0 ≡ c))
      ⊎ Kicked c m n (group_kick_member c m n)
unfolding group_kick_member
group_kick_member_outcome c m n v = elim (text_cases m n) [
  | inl a ↦ inl (rw (a, text_eq_refl n) (inl (refl, refl), refl))
  | inr a ↦ elim (Bool-cases (get_group_info c n).is_leader) [
    | inl b ↦ elim (text_cases (find_group_id m c.my_groups) (find_group_id n c.my_groups)) [
      | inl e ↦ inr (
          rw
            (
              text_ne m n a,
              b,
              get_group_info-group_id c m,
              get_group_info-group_id c n,
              e,
              text_eq_refl (find_group_id n c.my_groups),
            )
            (
              a,
              (is_leader-Leads c n v).0 b,
              refl,
              find_group_id-erase_self m c.my_groups,
              (λ k ne. find_group_id-erase_other m k c.my_groups ne),
              refl,
              refl,
            ))
      | inr e ↦ inl (
          rw
            (
              text_ne m n a,
              b,
              get_group_info-group_id c m,
              get_group_info-group_id c n,
              text_ne _ _ e,
            )
            (inr (inr (a, (is_leader-Leads c n v).0 b, e, refl)), refl))
    ]
    | inr b ↦
        inl (
          rw (text_ne m n a, b)
            (inr (inl (a, (λ l. cc ((is_leader-Leads c n v).1 l)), refl)), refl))
  ]
]

-- The invitations that `GroupDisband` leaves: those of a one-member group go with it.
abbrev pub invites_after : GroupContainer → Text → List GroupInviteData
invites_after c n =
    if size (find_group_id n c.my_groups) c.my_groups == 1
    then keep_if (λ (i : GroupInviteData). not (text_eq i.leader_name n)) c.my_invites
    else c.my_invites

kept_invites :
    (c : GroupContainer) (n : Text)
    → IsWellFormed c
    → (if eq_ℤ (get_group_info c n).member_count (pos 1)
        then keep_if (λ (i : GroupInviteData). not (text_eq i.leader_name n)) c.my_invites
        else c.my_invites)
      ≡ invites_after c n
kept_invites c n v = rw (get_group_info-member_count c n v.grouped) refl

abbrev pub Disbanded : GroupContainer → Text → GroupContainer × GroupInfo → Type 0
Disbanded c n r =
    (find_group_id n r.0.my_groups ≡ [])
    × ((k : Text) → k ≢ n → find_group_id k r.0.my_groups ≡ find_group_id k c.my_groups)
    × (r.0.my_invites ≡ invites_after c n)
    × (r.1.error_code ≡ group_success)
    × (r.1.group_id ≡ [])

-- Leaving, in a well-formed container: the character is in no group afterwards, every other
-- character's group is as before (a group that is left is not dissolved), the character's own
-- invitations go exactly if it was the only member of its group, and the answer has the code for
-- success, also for a character who was in no group.
pub group_disband_outcome :
    (c : GroupContainer) (n : Text) → IsWellFormed c → Disbanded c n (group_disband c n)
unfolding group_disband assign_leader
group_disband_outcome c n v = elim (Bool-cases (text_eq (get_group_info c n).leader_name n)) [
  | inl a ↦
      rw (a, assign_leader)
        (
          find_group_id-assign n _ false _ ∙ find_group_id-erase_self n c.my_groups,
          (λ k ne. find_group_id-assign k _ false _ ∙ find_group_id-erase_other n k c.my_groups ne),
          kept_invites c n v,
          refl,
          refl,
        )
  | inr a ↦ rw a (
    find_group_id-erase_self n c.my_groups,
    (λ k ne. find_group_id-erase_other n k c.my_groups ne),
    kept_invites c n v,
    refl,
    refl,
  )
]

-- The first member of the group in the list's order.
abbrev pub first_member : Text → List GroupMember → Option GroupMember
first_member g [] = none
first_member g (m ∷ ms) = if in_group g m then some m else first_member g ms

assign-leads_first :
    (g : Text) (ms : List GroupMember) {m : GroupMember}
    → first_member g ms ≡ some m
    → 1 ≤ count_if (leads_named m.name g) (assign_from g false ms)
unfolding assign_from count_if
assign-leads_first g [] e = cc
assign-leads_first g (k ∷ ms) {m} e =
    ground (arith, assign-leads_first g ms {m = m}, text_eq_iff k.name m.name)

group_disband-leader :
    (c : GroupContainer) (n : Text)
    → IsWellFormed c
    → Leads c n
    → (group_disband c n).0.my_groups
      ≡ assign_from (find_group_id n c.my_groups) false (erase_named n c.my_groups)
unfolding group_disband assign_leader
group_disband-leader c n v l =
    let g : Text = find_group_id n c.my_groups in
    rw
      (
        get_group_info_present c n l.0,
        last_leader_unique n g [] c.my_groups (omega (arith, v.led g)) l.1,
        text_eq_refl n,
      )
      refl

-- A leading member is found in the group that it leads.
find_group_id-leads_named :
    (n g : Text) (ms : List GroupMember)
    → occurrences n ms ≤ 1
    → 1 ≤ count_if (leads_named n g) ms
    → find_group_id n ms ≡ g
find_group_id-leads_named n g ms u h = elim (text_cases (find_group_id n ms) g) [
  | inl e ↦ e
  | inr ne ↦ absurd (omega (arith, in_named-elsewhere n g ms u ne, leads_named-le n g ms))
]

-- When a leader leaves, in a well-formed container, and the group has other members, the first of
-- those in the container's order leads it, and every member of the group is told so by a query.
pub group_disband_succession :
    (c : GroupContainer) (n : Text) (m : GroupMember)
    → IsWellFormed c
    → Leads c n
    → first_member (find_group_id n c.my_groups) (erase_named n c.my_groups) ≡ some m
    → Leads (group_disband c n).0 m.name
      × ((k : Text)
          → k ≢ n
          → find_group_id k c.my_groups ≡ find_group_id n c.my_groups
          → (get_group_info (group_disband c n).0 k).leader_name ≡ m.name)
group_disband_succession c n m v l e =
    let g : Text = find_group_id n c.my_groups in
    let v' : IsWellFormed (group_disband c n).0 = group_disband-WellFormed c n v in
    let led : 1 ≤ count_if (leads_named m.name g) (group_disband c n).0.my_groups =
      rw (group_disband-leader c n v l) (assign-leads_first g (erase_named n c.my_groups) e) in
    let found : find_group_id m.name (group_disband c n).0.my_groups ≡ g =
      find_group_id-leads_named m.name g (group_disband c n).0.my_groups (v'.unique m.name) led in
    (
      (rw found l.0, rw found led),
      λ k ne same.
          let stays : find_group_id k (group_disband c n).0.my_groups ≡ g =
            (group_disband_outcome c n v).1 k ne ∙ same in
          rw (get_group_info_present (group_disband c n).0 k (rw stays l.0), stays)
            (last_leader_unique m.name g [] (group_disband c n).0.my_groups
              (omega (arith, v'.led g)) led),
    )
