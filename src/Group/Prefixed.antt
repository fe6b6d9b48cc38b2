-- ===== src/Group/Prefixed.antt =====
-- The group ids of the members all begin with `group_`, and so are their own topics.
use u_dara_chat.Base.Int.{pos, ltb_ℤ}
use u_dara_chat.Base.{
  ℕ, ◌≡◌, refl, sym, Bool, true, false, not, List, [], ◌∷◌, ◌++◌, Text, text_eq, is_empty,
  is_empty_iff, starts_with, any_of, keep_if, if◌then◌else◌, arith, Bool-cases, inl, inr,
}
use u_dara_chat.Group.Answers.{get_group_info-group_id}
use u_dara_chat.Group.Container.{
  online_member, group_start_group, group_join, erase_named, group_kick_member, assign_from,
  assign_leader, group_disband, alive_from, alive_msg, online_from, set_member_online,
  remove_ld_group_members, get_group_topic,
}
use u_dara_chat.Group.Info.{find_group_id, get_group_info}
use u_dara_chat.Group.Invites.{add_invite, remove_invite, remove_old_invites}
use u_dara_chat.Group.Names.{group_of}
use u_dara_chat.Group.NewId.{get_new_group_id, get_new_group_id_shape}
use u_dara_chat.Group.Reach.{
  Step, start, join, kick, disband, alive, online, scheduled, invite, uninvite, expire, Reach, here,
  next,
}
use u_dara_chat.Group.Types.{
  my_group_prefix, my_max_group_members, GroupMember, GroupInfo, GroupContainer,
}

abbrev lacks_prefix : GroupMember → Bool
lacks_prefix m = not (starts_with my_group_prefix m.group_id)

-- Every member's group id begins with the prefix.
abbrev IsPrefixed : List GroupMember → Type 0
IsPrefixed ms = any_of lacks_prefix ms ≡ false

push-Prefixed :
    (m : GroupMember) (ms : List GroupMember)
    → starts_with my_group_prefix m.group_id ≡ true
    → IsPrefixed ms
    → IsPrefixed (ms ++ m ∷ [])
unfolding any_of
push-Prefixed m [] h p = ground (arith, h)
push-Prefixed m (x ∷ ms) h p = ground (arith, h, p, push-Prefixed m ms h)

erase-Prefixed : (n : Text) (ms : List GroupMember) → IsPrefixed ms → IsPrefixed (erase_named n ms)
unfolding any_of keep_if
erase-Prefixed n [] p = refl
erase-Prefixed n (x ∷ ms) p = ground (arith, p, erase-Prefixed n ms)

assign-Prefixed :
    (g : Text) (found : Bool) (ms : List GroupMember)
    → IsPrefixed ms
    → IsPrefixed (assign_from g found ms)
unfolding any_of assign_from
assign-Prefixed g found [] p = refl
assign-Prefixed g found (x ∷ ms) p =
    ground (arith, p, assign-Prefixed g true ms, assign-Prefixed g found ms)

alive-Prefixed :
    (now : ℕ) (m : GroupMember) (ms : List GroupMember)
    → IsPrefixed ms
    → IsPrefixed (alive_from now m ms)
unfolding any_of alive_from
alive-Prefixed now m [] p = refl
alive-Prefixed now m (x ∷ ms) p = ground (arith, p, alive-Prefixed now m ms)

online-Prefixed :
    (now : ℕ) (n : Text) (b : Bool) (ms : List GroupMember)
    → IsPrefixed ms
    → IsPrefixed (online_from now n b ms).0
unfolding any_of online_from
online-Prefixed now n b [] p = refl
online-Prefixed now n b (x ∷ ms) p = ground (arith, p, online-Prefixed now n b ms)

find_group_id-prefix :
    (n : Text) (ms : List GroupMember)
    → IsPrefixed ms
    → is_empty (find_group_id n ms) ≡ false
    → starts_with my_group_prefix (find_group_id n ms) ≡ true
unfolding any_of find_group_id
find_group_id-prefix n [] p h = ground (arith, h)
find_group_id-prefix n (x ∷ ms) p h = ground (arith, p, h, find_group_id-prefix n ms)

-- The same for an operation that answers.
record PrefixedAfter (r : GroupContainer × GroupInfo) : Type 0 where
  groups : IsPrefixed r.0.my_groups

PrefixedAfter-if :
    {p q : GroupContainer × GroupInfo} (b : Bool)
    → PrefixedAfter p
    → PrefixedAfter q
    → PrefixedAfter (if b then p else q)
PrefixedAfter-if true p q = p
PrefixedAfter-if false p q = q

module _ (c : GroupContainer) (p : IsPrefixed c.my_groups) where
  unmoved : (info : GroupInfo) → PrefixedAfter (c, info)
  unmoved info = record { groups = p }

  start-Prefixed :
      (now : ℕ) (id n : Text)
      → starts_with my_group_prefix id ≡ true
      → PrefixedAfter (group_start_group now id c n)
  unfolding group_start_group
  start-Prefixed now id n h =
      PrefixedAfter-if (not (is_empty (get_group_info c n).group_id)) (unmoved _)
        (record { groups = push-Prefixed (online_member now n id true) c.my_groups h p })

  join-Prefixed : (now : ℕ) (m n : Text) → PrefixedAfter (group_join now c m n)
  unfolding group_join
  join-Prefixed now m n =
      let leader : GroupInfo = get_group_info c n in
      elim (Bool-cases (is_empty leader.group_id)) [
        | inl e ↦ rw e (PrefixedAfter-if (is_empty n) (unmoved _) (unmoved _))
        | inr e ↦
            let id : leader.group_id ≡ find_group_id n c.my_groups = get_group_info-group_id c n in
            let h : starts_with my_group_prefix leader.group_id ≡ true =
              rw id (find_group_id-prefix n c.my_groups p (rw id at e)) in
            rw e (
              PrefixedAfter-if (is_empty n) (unmoved _) (
                PrefixedAfter-if (not (ltb_ℤ leader.member_count (pos my_max_group_members)))
                  (unmoved _)
                  (PrefixedAfter-if (not (is_empty (get_group_info c m).group_id)) (unmoved _)
                    (record {
                      groups =
                          push-Prefixed (online_member now m leader.group_id false) c.my_groups h p;
                    }))))
      ]

  kick-Prefixed : (m n : Text) → PrefixedAfter (group_kick_member c m n)
  unfolding group_kick_member
  kick-Prefixed m n = PrefixedAfter-if (text_eq m n) (unmoved _) (
      PrefixedAfter-if (not (get_group_info c n).is_leader) (unmoved _) (
        PrefixedAfter-if (not (text_eq (get_group_info c m).group_id (get_group_info c n).group_id))
          (unmoved _) (record { groups = erase-Prefixed m c.my_groups p })))

  disband-Prefixed : (n : Text) → IsPrefixed (group_disband c n).0.my_groups
  unfolding group_disband assign_leader
  disband-Prefixed n =
      let info : GroupInfo = get_group_info c n in
      elim (Bool-cases (text_eq info.leader_name n)) [
        | inl e ↦ rw e (
            assign-Prefixed info.group_id false (erase_named n c.my_groups)
              (erase-Prefixed n c.my_groups p))
        | inr e ↦ rw e (erase-Prefixed n c.my_groups p)
      ]

Step-Prefixed : {c d : GroupContainer} → Step c d → IsPrefixed c.my_groups → IsPrefixed d.my_groups
unfolding alive_msg set_member_online remove_ld_group_members add_invite remove_invite
    remove_old_invites
Step-Prefixed (start now dis dis2 c n f) p =
    (start-Prefixed c p now (get_new_group_id dis dis2) n
      (get_new_group_id_shape dis dis2).0).groups
Step-Prefixed (join now c m n) p = (join-Prefixed c p now m n).groups
Step-Prefixed (kick c m n) p = (kick-Prefixed c p m n).groups
Step-Prefixed (disband c n) p = disband-Prefixed c p n
Step-Prefixed (alive now c m) p = alive-Prefixed now m c.my_groups p
Step-Prefixed (online now c n b) p = online-Prefixed now n b c.my_groups p
Step-Prefixed (scheduled c) p = p
Step-Prefixed (invite now c l m) p = p
Step-Prefixed (uninvite c l m) p = p
Step-Prefixed (expire now c) p = p

Reach-Prefixed : {c : GroupContainer} → Reach c → IsPrefixed c.my_groups
unfolding any_of
Reach-Prefixed here = refl
Reach-Prefixed (next r s) = Step-Prefixed s (Reach-Prefixed r)

-- A group's id is its own topic.
pub Reach-topic :
    {c : GroupContainer} (n : Text) → Reach c → get_group_topic (group_of c n) ≡ group_of c n
unfolding get_group_topic
Reach-topic {c} n r = elim (Bool-cases (is_empty (find_group_id n c.my_groups))) [
  | inl e ↦ rw e (sym ((is_empty_iff _).0 e))
  | inr e ↦ rw (e, find_group_id-prefix n c.my_groups (Reach-Prefixed r) e) refl
]
