-- ===== src/Group/Names.antt =====
-- Which names an operation of the container moves to another group: its own at most.
use u_dara_chat.Base.Int.{pos, eq_ℤ}
use u_dara_chat.Base.{
  ℕ, ◌≡◌, refl, sym, ap, ◌∙◌, ◌≢◌, ◌⊎◌, inl, inr, Bool, true, false, List, [], ◌∷◌, Text, arith,
}
use u_dara_chat.Group.Answers.{get_group_info-group_id}
use u_dara_chat.Group.Container.{
  group_start_group, group_join, alive_from, alive_msg, online_from, set_member_online,
  online_member,
}
use u_dara_chat.Group.Count.{occurrences-find_group_id}
use u_dara_chat.Group.Info.{find_group_id, get_group_info}
use u_dara_chat.Group.Joining.{JoinRefused, group_join_outcome}
use u_dara_chat.Group.Lookup.{find_group_id-push_other, find_group_id-push_new}
use u_dara_chat.Group.Steps.{IsWellFormed}
use u_dara_chat.Group.Types.{GroupMember, GroupInfo, GroupContainer}

-- The group that the container has a name in.
abbrev pub group_of : GroupContainer → Text → Text
group_of c n = find_group_id n c.my_groups

pub group_of-alive_msg :
    (now : ℕ) (c : GroupContainer) (m : GroupMember) (n : Text)
    → group_of (alive_msg now c m) n ≡ group_of c n
unfolding alive_msg alive_from find_group_id
group_of-alive_msg now c m n = from c.my_groups
  where
    from : (ms : List GroupMember) → find_group_id n (alive_from now m ms) ≡ find_group_id n ms
    from [] = refl
    from (k ∷ ms) = ground (arith, from ms)

pub group_of-set_member_online :
    (now : ℕ) (c : GroupContainer) (m : Text) (b : Bool) (n : Text)
    → group_of (set_member_online now c m b).0 n ≡ group_of c n
unfolding set_member_online online_from find_group_id
group_of-set_member_online now c m b n = from c.my_groups
  where
    from : (ms : List GroupMember) → find_group_id n (online_from now m b ms).0 ≡ find_group_id n ms
    from [] = refl
    from (k ∷ ms) = ground (arith, from ms)

pub group_of-group_join_other :
    (now : ℕ) (c : GroupContainer) (m l n : Text)
    → n ≢ m
    → group_of (group_join now c m l).0 n ≡ group_of c n
unfolding group_join
group_of-group_join_other now c m l n ne = ground (
  arith,
  find_group_id-push_other n c.my_groups (online_member now m (get_group_info c l).group_id false)
      (λ e. ne (sym e)),
)

-- A start of a group by a name that is in none.
pub group_of-group_start_group :
    (now : ℕ) (id : Text) (c : GroupContainer) (m : Text)
    → IsWellFormed c
    → group_of c m ≡ []
    → ((group_start_group now id c m).1.error_code ≡ pos 0)
      × ((group_start_group now id c m).1.group_id ≡ group_of (group_start_group now id c m).0 m)
      × ((n : Text) → n ≢ m → group_of (group_start_group now id c m).0 n ≡ group_of c n)
unfolding group_start_group
group_of-group_start_group now id c m v e =
    rw (get_group_info-group_id c m, e)
      (
        refl,
        sym (
            find_group_id-push_new m c.my_groups (online_member now m id true)
              (occurrences-find_group_id m c.my_groups v.grouped e) refl),
        λ n ne.
            find_group_id-push_other n c.my_groups (online_member now m id true) (λ q. ne (sym q)),
      )

-- The answer to a join by a name that is in no group: an error, and it still is in none, or the id of
-- the group that it then is in.
abbrev pub JoinAnswer : Text → GroupContainer × GroupInfo → Type 0
JoinAnswer m r =
    ((eq_ℤ r.1.error_code (pos 0) ≡ false) × (group_of r.0 m ≡ []))
    ⊎ ((r.1.error_code ≡ pos 0) × (r.1.group_id ≡ group_of r.0 m))

pub refused-code :
    (c : GroupContainer) (m l : Text) (r : GroupInfo)
    → JoinRefused c m l r
    → eq_ℤ r.error_code (pos 0) ≡ false
refused-code c m l r (inl (a, e)) = rw e refl
refused-code c m l r (inr (inl (a, b, e))) = rw e refl
refused-code c m l r (inr (inr (inl (a, b, e)))) = rw e refl
refused-code c m l r (inr (inr (inr (a, b, d, e)))) = rw e refl

pub group_join-JoinAnswer :
    (now : ℕ) (c : GroupContainer) (m l : Text)
    → IsWellFormed c
    → group_of c m ≡ []
    → JoinAnswer m (group_join now c m l)
group_join-JoinAnswer now c m l v alone = elim (group_join_outcome now c m l v) [
  | inl (refused, same) ↦
      inl (refused-code c m l (group_join now c m l).1 refused, ap (λ d. group_of d m) same ∙ alone)
  | inr (grouped, _, _, own, _, answer, code) ↦
      let other : l ≢ m = λ e. grouped (ap (group_of c) e ∙ alone) in
      inr (
        code,
        ap (λ (i : GroupInfo). i.group_id) answer
            ∙ get_group_info-group_id (group_join now c m l).0 l
            ∙ group_of-group_join_other now c m l l other
            ∙ sym own,
      )
]
