-- ===== src/Group/Steps.antt =====
-- Every operation of the container on memberships keeps the invariant.
use u_dara_chat.Base.Int.{pos, ltb_ℤ}
use u_dara_chat.Base.{
  ℕ, ◌≤◌, ◌≡◌, refl, ◌≢◌, inl, inr, Bool, true, false, List, [], ◌∷◌, Text, text_eq, text_cases,
  text_ne, is_empty, is_empty_iff, zero-cases, not_empty, text_eq_refl, count_if, arith,
  if◌then◌else◌, Bool-cases,
}
use u_dara_chat.Group.Info.{named, in_group, leads, find_group_id, get_group_info}
use u_dara_chat.Group.Container.{
  group_start_group, group_join, group_kick_member, group_disband, assign_leader, alive_from,
  alive_msg, online_from, set_member_online, online_member,
}
use u_dara_chat.Group.Count.{
  size, leaders, leads_named, occurrences-find_group_id, size-find_group_id,
}
use u_dara_chat.Group.Leader.{last_leader_unique, leads_named-le-leaders}
use u_dara_chat.Group.Query.{get_group_info_absent, get_group_info_present}
use u_dara_chat.Group.Answers.{
  get_group_info-group_id, get_group_info-member_count, last_leader-named, empty-cases,
}
use u_dara_chat.Group.Invariant.{
  WellFormed, push-WellFormed, erase-WellFormed, erase-assign-WellFormed, leads_named-elsewhere,
  same_counts-WellFormed,
}
use u_dara_chat.Group.Types.{GroupMember, GroupContainer, my_max_group_members}

abbrev pub IsWellFormed : GroupContainer → Type 0
IsWellFormed c = WellFormed c.my_groups

pub group_start_group-WellFormed :
    (now : ℕ) (id : Text) (c : GroupContainer) (n : Text)
    → id ≢ []
    → size id c.my_groups ≡ 0
    → IsWellFormed c
    → IsWellFormed (group_start_group now id c n).0
unfolding group_start_group
group_start_group-WellFormed now id c n ne fresh v =
    elim (empty-cases (find_group_id n c.my_groups)) [
      | inl e ↦
          rw (get_group_info-group_id c n, e)
            (push-WellFormed c.my_groups (online_member now n id true) v
              (occurrences-find_group_id n c.my_groups v.grouped e) ne (omega (arith, fresh))
              (omega (arith, fresh, v.led id)))
      | inr e ↦
          rw (get_group_info-group_id c n)
            (ground (arith, is_empty_iff (find_group_id n c.my_groups)))
    ]

pub group_join-WellFormed :
    (now : ℕ) (c : GroupContainer) (m n : Text)
    → IsWellFormed c
    → IsWellFormed (group_join now c m n).0
unfolding group_join
group_join-WellFormed now c m n v =
    rw
      (
        get_group_info-group_id c n,
        get_group_info-group_id c m,
        get_group_info-member_count c n v.grouped,
      )
      (elim (Bool-cases (is_empty n)) [
        | inl a ↦ rw a v
        | inr a ↦ elim (empty-cases (find_group_id n c.my_groups)) [
          | inl b ↦ rw (a, b) v
          | inr b ↦
              rw (a, not_empty _ b)
                (elim (Bool-cases (
                  ltb_ℤ (pos (size (find_group_id n c.my_groups) c.my_groups))
                    (pos my_max_group_members))) [
                      | inl d ↦ rw d (elim (empty-cases (find_group_id m c.my_groups)) [
                        | inl e ↦ rw e (
                            push-WellFormed c.my_groups
                              (online_member now m (find_group_id n c.my_groups) false) v
                              (occurrences-find_group_id m c.my_groups v.grouped e) b (ground arith)
                              (omega (
                                arith,
                                v.led (find_group_id n c.my_groups),
                                size-find_group_id n c.my_groups b,
                              )))
                        | inr e ↦ rw (not_empty _ e) v
                      ])
                      | inr d ↦ rw d v
                    ])
        ]
      ])

-- A leader of a group with one leader, by `GetGroupInfo`'s answer.
pub get_group_info-leads :
    (c : GroupContainer) (n : Text)
    → (get_group_info c n).is_leader ≡ true
    → (find_group_id n c.my_groups ≢ [])
      × (1 ≤ count_if (leads_named n (find_group_id n c.my_groups)) c.my_groups)
get_group_info-leads c n e = elim (empty-cases (find_group_id n c.my_groups)) [
  | inl h ↦ cc (rw (get_group_info_absent c n h) at e)
  | inr h ↦ (h, last_leader-named n _ c.my_groups (rw (get_group_info_present c n h) at e))
]

-- Whoever shares a group with its leader, and is not the leader, leads nothing.
follower-leads_named :
    (c : GroupContainer) (m n : Text)
    → IsWellFormed c
    → text_eq m n ≡ false
    → find_group_id m c.my_groups ≡ find_group_id n c.my_groups
    → 1 ≤ count_if (leads_named n (find_group_id n c.my_groups)) c.my_groups
    → (g : Text) → count_if (leads_named m g) c.my_groups ≡ 0
follower-leads_named c m n v a e l g = elim (text_cases (find_group_id m c.my_groups) g) [
  | inr ne ↦ leads_named-elsewhere c.my_groups m v g ne
  | inl h ↦ elim (zero-cases (count_if (leads_named m g) c.my_groups)) [
    | inl z ↦ z
    | inr k ↦
        let one : leaders g c.my_groups ≤ 1 = omega (arith, v.led g) in
        let l' : 1 ≤ count_if (leads_named n g) c.my_groups = rw (← h, e) l in
        cc (
          a,
          text_eq_refl m,
          last_leader_unique m g [] c.my_groups one k,
          last_leader_unique n g [] c.my_groups one l',
        )
  ]
]

pub group_kick_member-WellFormed :
    (c : GroupContainer) (m n : Text) → IsWellFormed c → IsWellFormed (group_kick_member c m n).0
unfolding group_kick_member
group_kick_member-WellFormed c m n v = elim (Bool-cases (text_eq m n)) [
  | inl a ↦ rw a v
  | inr a ↦ elim (Bool-cases (get_group_info c n).is_leader) [
    | inl b ↦ elim (text_cases (find_group_id m c.my_groups) (find_group_id n c.my_groups)) [
      | inl e ↦
          rw
            (
              a,
              b,
              get_group_info-group_id c m,
              get_group_info-group_id c n,
              e,
              text_eq_refl (find_group_id n c.my_groups),
            )
            (erase-WellFormed c.my_groups m v
              (follower-leads_named c m n v a e (get_group_info-leads c n b).1))
      | inr e ↦ rw (a, b, get_group_info-group_id c m, get_group_info-group_id c n, text_ne _ _ e) v
    ]
    | inr b ↦ rw (a, b) v
  ]
]

-- Whoever the answer does not name as leader leads nothing.
not_leader-leads_named :
    (c : GroupContainer) (n : Text)
    → IsWellFormed c
    → text_eq (get_group_info c n).leader_name n ≡ false
    → (g : Text) → count_if (leads_named n g) c.my_groups ≡ 0
not_leader-leads_named c n v a g = elim (text_cases (find_group_id n c.my_groups) g) [
  | inr ne ↦ leads_named-elsewhere c.my_groups n v g ne
  | inl h ↦ elim (zero-cases (count_if (leads_named n g) c.my_groups)) [
    | inl z ↦ z
    | inr k ↦ elim (empty-cases (find_group_id n c.my_groups)) [
      | inl e ↦
          let k' : 1 ≤ count_if (leads_named n []) c.my_groups = rw (← e, h) k in
          absurd (omega (arith, leads_named-le-leaders n [] c.my_groups, v.led [], v.grouped))
      | inr e ↦
          let k' : 1 ≤ count_if (leads_named n (find_group_id n c.my_groups)) c.my_groups =
            rw h k in
          cc (
            rw (get_group_info_present c n e) at a,
            text_eq_refl n,
            last_leader_unique n (find_group_id n c.my_groups) [] c.my_groups
                (omega (arith, v.led (find_group_id n c.my_groups))) k',
          )
    ]
  ]
]

pub group_disband-WellFormed :
    (c : GroupContainer) (n : Text) → IsWellFormed c → IsWellFormed (group_disband c n).0
unfolding group_disband
group_disband-WellFormed c n v = elim (Bool-cases (text_eq (get_group_info c n).leader_name n)) [
  | inl a ↦
      rw (a, get_group_info-group_id c n)
        (unfold assign_leader in erase-assign-WellFormed c.my_groups n v)
  | inr a ↦ rw a (erase-WellFormed c.my_groups n v (not_leader-leads_named c n v a))
]

module _ (p : GroupMember → Bool) where
  pub count_if-alive :
      (now : ℕ) (a : GroupMember) (ms : List GroupMember)
      → ((m : GroupMember)
          → p (record m { zone = a.zone; health = a.health; store_time = now; is_online = true })
            ≡ p m)
      → count_if p (alive_from now a ms) ≡ count_if p ms
  unfolding count_if alive_from
  count_if-alive now a [] s = refl
  count_if-alive now a (m ∷ ms) s = ground (arith, count_if-alive now a ms s, s m)

  pub count_if-online :
      (now : ℕ) (n : Text) (b : Bool) (ms : List GroupMember)
      → ((m : GroupMember) (t : ℕ) → p (record m { is_online = b; store_time = t }) ≡ p m)
      → count_if p (online_from now n b ms).0 ≡ count_if p ms
  unfolding count_if online_from
  count_if-online now n b [] s = refl
  count_if-online now n b (m ∷ ms) s =
      ground (arith, count_if-online now n b ms s, s m (if b then now else m.store_time))

pub alive_msg-WellFormed :
    (now : ℕ) (c : GroupContainer) (a : GroupMember)
    → IsWellFormed c
    → IsWellFormed (alive_msg now c a)
unfolding alive_msg
alive_msg-WellFormed now c a =
    same_counts-WellFormed c.my_groups _
      (λ n. count_if-alive (named n) now a c.my_groups (λ m. refl))
      (λ g. count_if-alive (in_group g) now a c.my_groups (λ m. refl))
      (λ g. count_if-alive (leads g) now a c.my_groups (λ m. refl))

pub set_member_online-WellFormed :
    (now : ℕ) (c : GroupContainer) (n : Text) (b : Bool)
    → IsWellFormed c
    → IsWellFormed (set_member_online now c n b).0
unfolding set_member_online
set_member_online-WellFormed now c n b =
    same_counts-WellFormed c.my_groups _
      (λ k. count_if-online (named k) now n b c.my_groups (λ m t. refl))
      (λ g. count_if-online (in_group g) now n b c.my_groups (λ m t. refl))
      (λ g. count_if-online (leads g) now n b c.my_groups (λ m t. refl))
