-- ===== src/Group/Crowds.antt =====
-- How many members each group has after an operation of the container.
use u_dara_chat.Base.Int.{pos, ltb_ℤ}
use u_dara_chat.Base.{
  ℕ, ◌+◌, ◌≤◌, ◌≡◌, refl, ◌∙◌, ◌≢◌, ◌⊎◌, inl, inr, Bool, true, false, List, [], ◌∷◌, ◌++◌, Text,
  text_eq, text_eq_iff, text_eq_refl, text_ne, text_cases, is_empty, not_empty, count_if,
  count_if-append, arith, if◌then◌else◌, Bool-cases,
}
use u_dara_chat.Group.Answers.{get_group_info-group_id, empty-cases}
use u_dara_chat.Group.Container.{
  group_start_group, group_join, group_kick_member, group_disband, assign_leader, alive_msg,
  set_member_online, online_member, erase_named,
}
use u_dara_chat.Group.Count.{
  occurrences, size, in_named, in_named-le, in_named-elsewhere, size-erase,
}
use u_dara_chat.Group.Info.{in_group, find_group_id, get_group_info}
use u_dara_chat.Group.Leader.{size-assign}
use u_dara_chat.Group.Names.{group_of}
use u_dara_chat.Group.Steps.{IsWellFormed, count_if-alive, count_if-online}
use u_dara_chat.Group.Types.{GroupMember, GroupContainer, my_max_group_members}

-- One for the group `g`, none for another.
abbrev pub one_of : Text → Text → ℕ
one_of g k = if text_eq g k then 1 else 0

size-push :
    (m : GroupMember) (k : Text) (ms : List GroupMember)
    → size k (ms ++ m ∷ []) ≡ size k ms + one_of m.group_id k
unfolding count_if
size-push m k ms = ground (arith, count_if-append (in_group k) ms (m ∷ []))

pub size-group_start_group :
    (now : ℕ) (id : Text) (c : GroupContainer) (n : Text)
    → group_of c n ≡ []
    → (k : Text)
    → size k (group_start_group now id c n).0.my_groups ≡ size k c.my_groups + one_of id k
unfolding group_start_group
size-group_start_group now id c n alone k =
    rw (get_group_info-group_id c n, alone) (size-push (online_member now n id true) k c.my_groups)

-- A join leaves the container as it is, or appends the member.
pub group_join_pushes :
    (now : ℕ) (c : GroupContainer) (m n : Text)
    → ((group_join now c m n).0 ≡ c)
      ⊎ ((n ≢ [])
          × ((k : Text)
              → size k (group_join now c m n).0.my_groups
                ≡ size k c.my_groups + one_of (group_of c n) k))
unfolding group_join
group_join_pushes now c m n = elim (empty-cases n) [
  | inl a ↦ rw a (inl refl)
  | inr a ↦ elim (Bool-cases (is_empty (get_group_info c n).group_id)) [
    | inl b ↦ rw (not_empty _ a, b) (inl refl)
    | inr b ↦
        elim (Bool-cases (ltb_ℤ (get_group_info c n).member_count (pos my_max_group_members))) [
          | inr d ↦ rw (not_empty _ a, b, d) (inl refl)
          | inl d ↦ elim (Bool-cases (is_empty (get_group_info c m).group_id)) [
            | inr e ↦ rw (not_empty _ a, b, d, e) (inl refl)
            | inl e ↦
                rw (not_empty _ a, b, d, e, get_group_info-group_id c n)
                  (inr (a, λ k. size-push (online_member now m (group_of c n) false) k c.my_groups))
          ]
        ]
  ]
]

-- A name that the lookup finds is a member of the group that it is found in.
in_named-found :
    (n : Text) (ms : List GroupMember)
    → find_group_id n ms ≢ []
    → 1 ≤ count_if (in_named n (find_group_id n ms)) ms
unfolding count_if find_group_id
in_named-found n [] e = absurd (e refl)
in_named-found n (m ∷ ms) e = ground (arith, in_named-found n ms, text_eq_iff m.group_id m.group_id)

-- Erasing a name takes one member from the group of that name, and from no other.
size-erase_found :
    (n : Text) (ms : List GroupMember)
    → occurrences n ms ≤ 1
    → find_group_id n ms ≢ []
    → (k : Text) → size k (erase_named n ms) + one_of (find_group_id n ms) k ≡ size k ms
size-erase_found n ms unique found k = elim (text_cases (find_group_id n ms) k) [
  | inl e ↦
      rw (← e, text_eq_refl (find_group_id n ms))
        (omega (
          arith,
          unique,
          size-erase n (find_group_id n ms) ms,
          in_named-found n ms found,
          in_named-le n (find_group_id n ms) ms,
        ))
  | inr ne ↦
      rw (text_ne (find_group_id n ms) k ne)
        (omega (arith, size-erase n k ms, in_named-elsewhere n k ms unique ne))
]

module _ (c : GroupContainer) (m : Text) (v : IsWellFormed c) (found : group_of c m ≢ []) where
  pub size-group_kick_member :
      (n : Text)
      → ((group_kick_member c m n).0 ≡ c)
        ⊎ ((k : Text)
            → size k (group_kick_member c m n).0.my_groups + one_of (group_of c m) k
              ≡ size k c.my_groups)
  unfolding group_kick_member
  size-group_kick_member n = elim (Bool-cases (text_eq m n)) [
    | inl a ↦ rw a (inl refl)
    | inr a ↦ elim (Bool-cases (get_group_info c n).is_leader) [
      | inr b ↦ rw (a, b) (inl refl)
      | inl b ↦
          elim (Bool-cases (text_eq (get_group_info c m).group_id (get_group_info c n).group_id)) [
            | inr d ↦ rw (a, b, d) (inl refl)
            | inl d ↦ rw (a, b, d) (inr (size-erase_found m c.my_groups (v.unique m) found))
          ]
    ]
  ]

  pub size-group_disband :
      (k : Text)
      → size k (group_disband c m).0.my_groups + one_of (group_of c m) k ≡ size k c.my_groups
  unfolding group_disband assign_leader
  size-group_disband k =
      let erased = size-erase_found m c.my_groups (v.unique m) found k in
      elim (Bool-cases (text_eq (get_group_info c m).leader_name m)) [
        | inr a ↦ rw a erased
        | inl a ↦ rw a (
            omega (
              arith,
              erased,
              size-assign k (get_group_info c m).group_id false (erase_named m c.my_groups),
            ))
      ]

-- Leaving changes no count for a name in no group.
pub size-group_disband_alone :
    (c : GroupContainer) (m : Text)
    → occurrences m c.my_groups ≡ 0
    → (k : Text) → size k (group_disband c m).0.my_groups ≡ size k c.my_groups
unfolding group_disband assign_leader
size-group_disband_alone c m absent k =
    let kept : size k (erase_named m c.my_groups) ≡ size k c.my_groups =
      omega (arith, absent, size-erase m k c.my_groups, in_named-le m k c.my_groups) in
    elim (Bool-cases (text_eq (get_group_info c m).leader_name m)) [
      | inr a ↦ rw a kept
      | inl a ↦
          rw a
            (size-assign k (get_group_info c m).group_id false (erase_named m c.my_groups) ∙ kept)
    ]

pub size-alive_msg :
    (now : ℕ) (c : GroupContainer) (a : GroupMember) (k : Text)
    → size k (alive_msg now c a).my_groups ≡ size k c.my_groups
unfolding alive_msg
size-alive_msg now c a k = count_if-alive (in_group k) now a c.my_groups (λ m. refl)

pub size-set_member_online :
    (now : ℕ) (c : GroupContainer) (n : Text) (b : Bool) (k : Text)
    → size k (set_member_online now c n b).0.my_groups ≡ size k c.my_groups
unfolding set_member_online
size-set_member_online now c n b k = count_if-online (in_group k) now n b c.my_groups (λ m t. refl)
