-- ===== src/Group/Presence.antt =====
-- Who is online: what the container's operations do to the online flags.
use u_dara_chat.Base.Int.{pos, ltb_ℤ}
use u_dara_chat.Base.{
  is_empty, ℕ, ◌≤◌, ◌≡◌, refl, ap, ◌∙◌, ◌≢◌, Bool, true, false, not, ◌&&◌, ◌||◌, List, [], ◌∷◌,
  ◌++◌, Text, text_eq, text_eq_iff, any_of, count_if, keep_if, if◌then◌else◌, arith, Bool-cases,
  inl, inr,
}
use u_dara_chat.Group.Container.{
  push_member, online_member, group_start_group, group_join, erase_named, assign_from,
  assign_leader, group_disband, alive_from, alive_msg, online_from,
}
use u_dara_chat.Group.Count.{occurrences}
use u_dara_chat.Group.Info.{named, get_group_info}
use u_dara_chat.Group.Types.{my_max_group_members, GroupMember, GroupInfo, GroupContainer}

-- A member of the name is marked online, or offline.
abbrev pub has_online : Text → List GroupMember → Bool
has_online n = any_of (λ m. named n m && m.is_online)

abbrev pub has_offline : Text → List GroupMember → Bool
has_offline n = any_of (λ m. named n m && not m.is_online)

-- The marks of every name but `n` stay, and no mark of `n` becomes offline.
pub record Marks (n : Text) (ms ns : List GroupMember) : Type 0 where
  pub online_kept : (k : Text) → k ≢ n → has_online k ns ≡ has_online k ms
  pub offline_kept : (k : Text) → k ≢ n → has_offline k ns ≡ has_offline k ms
  pub own : has_offline n ms ≡ false → has_offline n ns ≡ false

pub Marks-refl : {n : Text} {ms : List GroupMember} → Marks n ms ms
Marks-refl = record { online_kept = λ k ne. refl; offline_kept = λ k ne. refl; own = λ h. h }

pub Marks-trans :
    {n : Text} {ms ns os : List GroupMember} → Marks n ms ns → Marks n ns os → Marks n ms os
Marks-trans a b = record {
  online_kept = λ k ne. b.online_kept k ne ∙ a.online_kept k ne;
  offline_kept = λ k ne. b.offline_kept k ne ∙ a.offline_kept k ne;
  own = λ h. b.own (a.own h);
}

-- The same for an operation that answers.
record MarksAfter (n : Text) (ms : List GroupMember) (r : GroupContainer × GroupInfo) : Type 0 where
  marks : Marks n ms r.0.my_groups

MarksAfter-if :
    {n : Text} {ms : List GroupMember} {p q : GroupContainer × GroupInfo} (b : Bool)
    → MarksAfter n ms p
    → MarksAfter n ms q
    → MarksAfter n ms (if b then p else q)
MarksAfter-if true p q = p
MarksAfter-if false p q = q

unmoved : {n : Text} {c : GroupContainer} {info : GroupInfo} → MarksAfter n c.my_groups (c, info)
unmoved = record { marks = Marks-refl }

module _ (n : Text) where
  push-Marks :
      (m : GroupMember) (ms : List GroupMember)
      → m.name ≡ n
      → m.is_online ≡ true
      → Marks n ms (ms ++ m ∷ [])
  unfolding any_of
  push-Marks m [] e o = record {
    online_kept = λ k ne. ground (arith, e, text_eq_iff m.name k, ne);
    offline_kept = λ k ne. ground (arith, o);
    own = λ h. ground (arith, o);
  }
  push-Marks m (x ∷ ms) e o =
      let rest = push-Marks m ms e o in
      record {
        online_kept = λ k ne. ap (λ b. (named k x && x.is_online) || b) (rest.online_kept k ne);
        offline_kept =
            λ k ne. ap (λ b. (named k x && not x.is_online) || b) (rest.offline_kept k ne);
        own = λ h. ground (arith, h, rest.own);
      }

  erase-Marks : (ms : List GroupMember) → Marks n ms (erase_named n ms)
  unfolding any_of keep_if
  erase-Marks [] = Marks-refl
  erase-Marks (x ∷ ms) =
      let rest = erase-Marks ms in
      record {
        online_kept = λ k ne.
            ground (arith, rest.online_kept k ne, text_eq_iff x.name n, text_eq_iff x.name k, ne);
        offline_kept = λ k ne.
            ground (arith, rest.offline_kept k ne, text_eq_iff x.name n, text_eq_iff x.name k, ne);
        own = λ h. ground (arith, h, rest.own);
      }

  assign-Marks :
      (g : Text) (found : Bool) (ms : List GroupMember) → Marks n ms (assign_from g found ms)
  unfolding any_of assign_from
  assign-Marks g found [] = Marks-refl
  assign-Marks g found (x ∷ ms) =
      let a = assign-Marks g true ms in
      let b = assign-Marks g found ms in
      record {
        online_kept = λ k ne. ground (arith, a.online_kept k ne, b.online_kept k ne);
        offline_kept = λ k ne. ground (arith, a.offline_kept k ne, b.offline_kept k ne);
        own = λ h. ground (arith, h, a.own, b.own);
      }

  alive-Marks :
      (now : ℕ) (alive : GroupMember) (ms : List GroupMember)
      → alive.name ≡ n
      → Marks n ms (alive_from now alive ms)
  unfolding any_of alive_from
  alive-Marks now alive [] e = Marks-refl
  alive-Marks now alive (x ∷ ms) e =
      let rest = alive-Marks now alive ms e in
      record {
        online_kept = λ k ne. ground (
          arith,
          rest.online_kept k ne,
          e,
          ne,
          text_eq_iff x.name alive.name,
          text_eq_iff x.name k,
        );
        offline_kept = λ k ne. ground (
          arith,
          rest.offline_kept k ne,
          e,
          ne,
          text_eq_iff x.name alive.name,
          text_eq_iff x.name k,
        );
        own = λ h. ground (arith, h, rest.own);
      }

  -- The marks of the other names, and the mark of a name that occurs once at most.
  pub online-others :
      (now : ℕ) (online : Bool) (ms : List GroupMember) (k : Text)
      → k ≢ n
      → (has_online k (online_from now n online ms).0 ≡ has_online k ms)
        × (has_offline k (online_from now n online ms).0 ≡ has_offline k ms)
  unfolding any_of online_from
  online-others now online [] k ne = (refl, refl)
  online-others now online (x ∷ ms) k ne =
      let rest = online-others now online ms k ne in
      (
        ground (arith, rest.0, ne, text_eq_iff x.name n, text_eq_iff x.name k),
        ground (arith, rest.1, ne, text_eq_iff x.name n, text_eq_iff x.name k),
      )

  absent-marks :
      (ms : List GroupMember)
      → occurrences n ms ≡ 0
      → (has_online n ms ≡ false) × (has_offline n ms ≡ false)
  unfolding any_of count_if
  absent-marks [] z = (refl, refl)
  absent-marks (x ∷ ms) z =
      let rest = absent-marks ms (ground (arith, z)) in
      (ground (arith, z, rest.0), ground (arith, z, rest.1))

  pub online-own :
      (now : ℕ) (ms : List GroupMember)
      → occurrences n ms ≤ 1
      → (has_online n (online_from now n false ms).0 ≡ false)
        × (has_offline n (online_from now n true ms).0 ≡ false)
  unfolding any_of online_from count_if
  online-own now [] z = (refl, refl)
  online-own now (x ∷ ms) z = elim (Bool-cases (named n x)) [
    | inl e ↦
        let none_left = absent-marks ms (ground (arith, z)) in
        (ground (arith, none_left.0, e), ground (arith, none_left.1, e))
    | inr e ↦
        let rest = online-own now ms (ground (arith, z)) in
        (ground (arith, rest.0, e), ground (arith, rest.1, e))
  ]

  pushed :
      (c : GroupContainer) (m : GroupMember) (info : GroupInfo)
      → m.name ≡ n
      → m.is_online ≡ true
      → MarksAfter n c.my_groups (push_member c m, info)
  pushed c m info e o = record { marks = push-Marks m c.my_groups e o }

  pub group_start_group-Marks :
      (now : ℕ) (id : Text) (c : GroupContainer)
      → Marks n c.my_groups (group_start_group now id c n).0.my_groups
  unfolding group_start_group
  group_start_group-Marks now id c =
      let after : MarksAfter n c.my_groups (group_start_group now id c n) =
        MarksAfter-if _ unmoved (pushed c _ _ refl refl) in
      after.marks

  pub group_join-Marks :
      (now : ℕ) (c : GroupContainer) (l : Text)
      → Marks n c.my_groups (group_join now c n l).0.my_groups
  unfolding group_join
  group_join-Marks now c l =
      let leader : GroupInfo = get_group_info c l in
      let after : MarksAfter n c.my_groups (group_join now c n l) =
        MarksAfter-if (is_empty l) unmoved (
          MarksAfter-if (is_empty leader.group_id) unmoved (
            MarksAfter-if (not (ltb_ℤ leader.member_count (pos my_max_group_members))) unmoved (
              MarksAfter-if (not (is_empty (get_group_info c n).group_id)) unmoved
                (pushed c (online_member now n leader.group_id false) _ refl refl)))) in
      after.marks

  pub group_disband-Marks :
      (c : GroupContainer) → Marks n c.my_groups (group_disband c n).0.my_groups
  unfolding group_disband assign_leader
  group_disband-Marks c =
      let left : List GroupMember = erase_named n c.my_groups in
      let info : GroupInfo = get_group_info c n in
      elim (Bool-cases (text_eq info.leader_name n)) [
        | inl e ↦
            rw e (Marks-trans (erase-Marks c.my_groups) (assign-Marks info.group_id false left))
        | inr e ↦ rw e (erase-Marks c.my_groups)
      ]

  pub alive_msg-Marks :
      (now : ℕ) (c : GroupContainer) (alive : GroupMember)
      → alive.name ≡ n
      → Marks n c.my_groups (alive_msg now c alive).my_groups
  unfolding alive_msg
  alive_msg-Marks now c alive e = alive-Marks now alive c.my_groups e
