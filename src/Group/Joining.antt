-- ===== src/Group/Joining.antt =====
-- What `GroupStartGroup` and `GroupJoin` do, branch by branch.
use u_dara_chat.Base.Int.{pos, ltb_ℤ}
use u_dara_chat.Base.{
  ℕ, ◌≤◌, ◌<◌, ◌≡◌, refl, ◌∙◌, ◌++◌, sym, suc, ◌≢◌, ◌⊎◌, inl, inr, true, false, List, [], ◌∷◌, Text,
  not_empty, text_eq_refl, count_if, arith, Bool-cases,
}
use u_dara_chat.Group.Answers.{get_group_info-group_id, get_group_info-member_count, empty-cases}
use u_dara_chat.Group.Container.{group_start_group, group_join, online_member, push_member}
use u_dara_chat.Group.Count.{size, occurrences-find_group_id}
use u_dara_chat.Group.Info.{named, in_group, find_group_id, get_group_info}
use u_dara_chat.Group.Lookup.{
  find_group_id-push_found, find_group_id-push_new, last_leader-push, keep_if-push, keep_if-none,
}
use u_dara_chat.Group.Query.{get_group_info_present}
use u_dara_chat.Group.Steps.{IsWellFormed}
use u_dara_chat.Group.Types.{
  GroupMember, GroupInfo, GroupContainer, my_max_group_members, group_member_already_in_group,
  group_leader_empty, group_leader_has_no_group, group_error_full,
}
use u_dara_chat.Base.{count_if-append}

-- A refused start changes nothing.
abbrev pub StartRefused : GroupContainer → Text → GroupContainer × GroupInfo → Type 0
StartRefused c n r =
    (find_group_id n c.my_groups ≢ [])
    × (r.0 ≡ c)
    × (r.1.error_code ≡ group_member_already_in_group)

-- The character now leads the new group alone, and the answer is what a query gives afterwards.
abbrev pub Started : Text → GroupContainer → Text → GroupContainer × GroupInfo → Type 0
Started id c n r =
    (find_group_id n c.my_groups ≡ [])
    × (find_group_id n r.0.my_groups ≡ id)
    × (r.1 ≡ get_group_info r.0 n)
    × (r.1.is_leader ≡ true)
    × (r.1.member_count ≡ pos 1)
    × (r.1.error_code ≡ pos 0)

-- The answer for a new group: everything but its one member lies outside the group.
described-push_new :
    (now : ℕ) (id n : Text) (c : GroupContainer)
    → IsWellFormed c
    → id ≢ []
    → size id c.my_groups ≡ 0
    → find_group_id n c.my_groups ≡ []
    → get_group_info (push_member c (online_member now n id true)) n ≡ record {
      group_id = id;
      leader_name = n;
      is_leader = true;
      member_count = pos 1;
      error_code = pos 0;
      group_members = online_member now n id true ∷ [];
    }
described-push_new now id n c v ne fresh e =
    let m : GroupMember = online_member now n id true in
    let found : find_group_id n (push_member c m).my_groups ≡ id =
      find_group_id-push_new n c.my_groups m (occurrences-find_group_id n c.my_groups v.grouped e)
        refl in
    get_group_info_present (push_member c m) n (rw found ne)
    ∙ rw
        (
          found,
          last_leader-push id (λ (k : GroupMember). k.name) [] c.my_groups m,
          last_leader-push id (named n) false c.my_groups m,
          count_if-append (in_group id) c.my_groups (m ∷ []),
          fresh,
          keep_if-push (in_group id) c.my_groups m,
          keep_if-none id c.my_groups fresh,
          text_eq_refl id,
          text_eq_refl n,
        )
        (unfold count_if in ground (arith, text_eq_refl id))

-- Starting a group, with an id that no member has: a character who is in a group is refused with
-- the code for that and nothing changes; any other becomes the leader and only member of a group
-- with that id, and the answer is what `GetGroupInfo` gives for the character afterwards.
pub group_start_group_outcome :
    (now : ℕ) (id : Text) (c : GroupContainer) (n : Text)
    → IsWellFormed c
    → id ≢ []
    → size id c.my_groups ≡ 0
    → StartRefused c n (group_start_group now id c n)
      ⊎ Started id c n (group_start_group now id c n)
unfolding group_start_group
group_start_group_outcome now id c n v ne fresh = elim (empty-cases (find_group_id n c.my_groups)) [
  | inl e ↦ inr (
      rw (get_group_info-group_id c n, e)
        (
          refl,
          find_group_id-push_new n c.my_groups (online_member now n id true)
              (occurrences-find_group_id n c.my_groups v.grouped e) refl,
          sym (described-push_new now id n c v ne fresh e),
          refl,
          refl,
          refl,
        ))
  | inr e ↦ inl (rw (get_group_info-group_id c n, not_empty _ e) (e, refl, refl))
]

-- The answer for a group that a plain member has joined.
described-push_member :
    (now : ℕ) (m n : Text) (c : GroupContainer)
    → find_group_id n c.my_groups ≢ []
    → let joined = push_member c (online_member now m (find_group_id n c.my_groups) false) in
      get_group_info joined n ≡ record (get_group_info c n) {
        member_count = pos (suc (size (find_group_id n c.my_groups) c.my_groups));
        group_members =
            (get_group_info c n).group_members
            ++ online_member now m (find_group_id n c.my_groups) false ∷ [];
      }
described-push_member now m n c e =
    let g : Text = find_group_id n c.my_groups in
    let k : GroupMember = online_member now m g false in
    let found : find_group_id n (push_member c k).my_groups ≡ g =
      find_group_id-push_found n c.my_groups k e in
    get_group_info_present (push_member c k) n (rw found e)
    ∙ rw
        (
          get_group_info_present c n e,
          found,
          last_leader-push g (λ (j : GroupMember). j.name) [] c.my_groups k,
          last_leader-push g (named n) false c.my_groups k,
          count_if-append (in_group g) c.my_groups (k ∷ []),
          keep_if-push (in_group g) c.my_groups k,
          text_eq_refl g,
        )
        (unfold count_if in ground (arith, text_eq_refl g))

size-push :
    (now : ℕ) (m g : Text) (ms : List GroupMember)
    → size g (ms ++ online_member now m g false ∷ []) ≡ suc (size g ms)
unfolding count_if
size-push now m g ms =
    ground
      (arith, count_if-append (in_group g) ms (online_member now m g false ∷ []), text_eq_refl g)

-- Each guard of `GroupJoin` with its code, in the order in which they are made.
abbrev pub JoinRefused : GroupContainer → Text → Text → GroupInfo → Type 0
JoinRefused c m n r =
    ((n ≡ []) × (r.error_code ≡ group_leader_empty))
    ⊎ ((n ≢ []) × (find_group_id n c.my_groups ≡ []) × (r.error_code ≡ group_leader_has_no_group))
    ⊎ ((find_group_id n c.my_groups ≢ [])
        × (my_max_group_members ≤ size (find_group_id n c.my_groups) c.my_groups)
        × (r.error_code ≡ group_error_full))
    ⊎ ((find_group_id n c.my_groups ≢ [])
        × (size (find_group_id n c.my_groups) c.my_groups < my_max_group_members)
        × (find_group_id m c.my_groups ≢ [])
        × (r.error_code ≡ group_member_already_in_group))

abbrev pub Joined : GroupContainer → Text → Text → GroupContainer × GroupInfo → Type 0
Joined c m n r =
    (find_group_id n c.my_groups ≢ [])
    × (size (find_group_id n c.my_groups) c.my_groups < my_max_group_members)
    × (find_group_id m c.my_groups ≡ [])
    × (find_group_id m r.0.my_groups ≡ find_group_id n c.my_groups)
    × (size (find_group_id n c.my_groups) r.0.my_groups
        ≡ suc (size (find_group_id n c.my_groups) c.my_groups))
    × (r.1 ≡ get_group_info r.0 n)
    × (r.1.error_code ≡ pos 0)

-- Joining the group of a named character, in a well-formed container: either the answer has the
-- code of the first guard that fails (no name, no group, group full, already in a group) and
-- nothing changes; or no guard fails, the character is then in that group, which has one member
-- more, and the answer is what `GetGroupInfo` gives afterwards.
pub group_join_outcome :
    (now : ℕ) (c : GroupContainer) (m n : Text)
    → IsWellFormed c
    → (JoinRefused c m n (group_join now c m n).1 × ((group_join now c m n).0 ≡ c))
      ⊎ Joined c m n (group_join now c m n)
unfolding group_join
group_join_outcome now c m n v =
    rw
      (
        get_group_info-group_id c n,
        get_group_info-group_id c m,
        get_group_info-member_count c n v.grouped,
      )
      (elim (empty-cases n) [
        | inl a ↦ rw a (inl (inl (refl, refl), refl))
        | inr a ↦ elim (empty-cases (find_group_id n c.my_groups)) [
          | inl b ↦ rw (not_empty _ a, b) (inl (inr (inl (a, refl, refl)), refl))
          | inr b ↦
              rw (not_empty _ a, not_empty _ b)
                (elim (Bool-cases (
                  ltb_ℤ (pos (size (find_group_id n c.my_groups) c.my_groups))
                    (pos my_max_group_members))) [
                      | inl d ↦ rw d (elim (empty-cases (find_group_id m c.my_groups)) [
                        | inl e ↦ rw e (
                            inr (
                              b,
                              ground arith,
                              refl,
                              find_group_id-push_new m c.my_groups
                                  (online_member now m (find_group_id n c.my_groups) false)
                                  (occurrences-find_group_id m c.my_groups v.grouped e) refl,
                              size-push now m (find_group_id n c.my_groups) c.my_groups,
                              sym (
                                  described-push_member now m n c b
                                  ∙ ground (arith, get_group_info-group_id c n)),
                              rw (get_group_info_present c n b) refl,
                            ))
                        | inr e ↦
                            rw (not_empty _ e)
                              (inl (inr (inr (inr (b, ground arith, e, refl))), refl))
                      ])
                      | inr d ↦ rw d (inl (inr (inr (inl (b, ground arith, refl))), refl))
                    ])
        ]
      ])
