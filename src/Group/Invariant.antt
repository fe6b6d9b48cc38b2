-- ===== src/Group/Invariant.antt =====
-- The invariant of the membership list, and that it survives each edit of the list.
use u_dara_chat.Base.{
  ◌+◌, ◌≤◌, ◌<◌, ◌≡◌, refl, ◌≢◌, inl, inr, ◌⊎◌, sym, text_cases, false, List, [], ◌∷◌, ◌++◌, Text,
  text_eq_iff, count_if, count_if-append, min, arith, if◌then◌else◌,
}
use u_dara_chat.Group.Info.{named, in_group, leads, find_group_id}
use u_dara_chat.Group.Container.{erase_named, assign_from}
use u_dara_chat.Group.Count.{
  occurrences, size, leaders, leads_named, occurrences-erase, size-erase, leaders-erase,
  leads_named-le, in_named-elsewhere, leaders-le-size,
}
use u_dara_chat.Group.Leader.{occurrences-assign, size-assign, leaders-assign_other, leaders-assign}
use u_dara_chat.Group.Types.{GroupMember, my_max_group_members}

-- A character is in one group at most, a group has six members at most and one leader exactly
-- (none when it has no member), and no member is outside every group.
pub record WellFormed (ms : List GroupMember) : Type 0 where
  pub unique : (n : Text) → occurrences n ms ≤ 1
  pub bounded : (g : Text) → size g ms ≤ my_max_group_members
  pub led : (g : Text) → leaders g ms ≡ min 1 (size g ms)
  pub grouped : size [] ms ≡ 0

pub nil-WellFormed : WellFormed []
unfolding count_if
nil-WellFormed = record {
  unique = λ n. omega arith;
  bounded = λ g. omega arith;
  led = λ g. omega arith;
  grouped = refl;
}

-- A new member: of a new group as its leader, or of a group with a leader and room, as a plain one.
pub push-WellFormed :
    (ms : List GroupMember) (m : GroupMember)
    → WellFormed ms
    → occurrences m.name ms ≡ 0
    → m.group_id ≢ []
    → size m.group_id ms < my_max_group_members
    → leaders m.group_id ms + (if m.is_leader then 1 else 0) ≡ 1
    → WellFormed (ms ++ m ∷ [])
unfolding count_if
push-WellFormed ms m v absent ne room one = record {
  unique =
      λ n. ground (arith, v.unique n, count_if-append (named n) ms (m ∷ []), text_eq_iff m.name n);
  bounded = λ g.
      ground
        (arith, v.bounded g, count_if-append (in_group g) ms (m ∷ []), text_eq_iff m.group_id g);
  led = λ g. ground (
    arith,
    v.led g,
    count_if-append (in_group g) ms (m ∷ []),
    count_if-append (leads g) ms (m ∷ []),
    text_eq_iff m.group_id g,
  );
  grouped =
      ground
        (arith, v.grouped, count_if-append (in_group []) ms (m ∷ []), text_eq_iff m.group_id []);
}

module _ (ms : List GroupMember) (n : Text) (v : WellFormed ms) where
  pub occurrences-erase-le : (k : Text) → occurrences k (erase_named n ms) ≤ 1
  occurrences-erase-le k = ground (arith, v.unique k, occurrences-erase n k ms)

  -- Someone who leads no group can be removed.
  pub erase-WellFormed :
      ((g : Text) → count_if (leads_named n g) ms ≡ 0) → WellFormed (erase_named n ms)
  erase-WellFormed plain = record {
    unique = occurrences-erase-le;
    bounded = λ g. omega (arith, v.bounded g, size-erase n g ms);
    led = λ g. omega (
      arith,
      v.led g,
      plain g,
      size-erase n g ms,
      leaders-erase n g ms,
      leaders-le-size g (erase_named n ms),
    );
    grouped = omega (arith, v.grouped, size-erase n [] ms);
  }

  pub leads_named-elsewhere :
      (g : Text) → find_group_id n ms ≢ g → count_if (leads_named n g) ms ≡ 0
  leads_named-elsewhere g e =
      omega (arith, in_named-elsewhere n g ms (v.unique n) e, leads_named-le n g ms)

  assigned-led :
      (g : Text)
      → (g ≡ find_group_id n ms) ⊎ (g ≢ find_group_id n ms)
      → leaders g (assign_from (find_group_id n ms) false (erase_named n ms))
        ≡ min 1 (size g (assign_from (find_group_id n ms) false (erase_named n ms)))
  assigned-led g (inl e) = rw e (
      omega (
        arith,
        leaders-assign (find_group_id n ms) false (erase_named n ms),
        size-assign (find_group_id n ms) (find_group_id n ms) false (erase_named n ms),
      ))
  assigned-led g (inr e) = omega (
    arith,
    v.led g,
    leaders-assign_other g (find_group_id n ms) false (erase_named n ms) e,
    size-assign g (find_group_id n ms) false (erase_named n ms),
    leaders-erase n g ms,
    size-erase n g ms,
    leads_named-elsewhere g (λ (q : find_group_id n ms ≡ g). e (sym q)),
    in_named-elsewhere n g ms (v.unique n) (λ (q : find_group_id n ms ≡ g). e (sym q)),
  )

  -- Anyone can be removed where `AssignLeader` follows.
  pub erase-assign-WellFormed :
      WellFormed (assign_from (find_group_id n ms) false (erase_named n ms))
  erase-assign-WellFormed = record {
    unique = λ k. omega (
      arith,
      occurrences-erase-le k,
      occurrences-assign k (find_group_id n ms) false (erase_named n ms),
    );
    bounded = λ g. omega (
      arith,
      v.bounded g,
      size-erase n g ms,
      size-assign g (find_group_id n ms) false (erase_named n ms),
    );
    led = λ g. assigned-led g (text_cases g (find_group_id n ms));
    grouped = omega (
      arith,
      v.grouped,
      size-erase n [] ms,
      size-assign [] (find_group_id n ms) false (erase_named n ms),
    );
  }

-- Edits that leave each member's name, group and role alone.
pub same_counts-WellFormed :
    (ms ks : List GroupMember)
    → ((n : Text) → occurrences n ks ≡ occurrences n ms)
    → ((g : Text) → size g ks ≡ size g ms)
    → ((g : Text) → leaders g ks ≡ leaders g ms)
    → WellFormed ms
    → WellFormed ks
same_counts-WellFormed ms ks o s l v = record {
  unique = λ n. omega (arith, o n, v.unique n);
  bounded = λ g. omega (arith, s g, v.bounded g);
  led = λ g. omega (arith, s g, l g, v.led g);
  grouped = omega (arith, s [], v.grouped);
}
