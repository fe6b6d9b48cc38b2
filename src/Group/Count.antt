-- ===== src/Group/Count.antt =====
-- Measures of a member list (`MyGroups`), and how the container's list edits change them.
use u_dara_chat.Base.{
  ℕ, ◌+◌, ◌≤◌, ◌≡◌, refl, ◌≢◌, Bool, ◌&&◌, List, [], ◌∷◌, Text, text_eq, text_eq_iff, count_if,
  keep_if, arith, if◌then◌else◌,
}
use u_dara_chat.Group.Info.{named, in_group, leads, find_group_id}
use u_dara_chat.Group.Container.{erase_named}
use u_dara_chat.Group.Types.{GroupMember}

-- How many members have the name, are in the group, and lead it.
abbrev pub occurrences : Text → List GroupMember → ℕ
occurrences name = count_if (named name)

abbrev pub size : Text → List GroupMember → ℕ
size g = count_if (in_group g)

abbrev pub leaders : Text → List GroupMember → ℕ
leaders g = count_if (leads g)

-- Of those, the ones of a given name.
abbrev pub in_named : Text → Text → GroupMember → Bool
in_named name g m = named name m && in_group g m

abbrev pub leads_named : Text → Text → GroupMember → Bool
leads_named name g m = named name m && leads g m

pub occurrences-erase :
    (n k : Text) (ms : List GroupMember)
    → occurrences k (erase_named n ms) ≡ (if text_eq n k then 0 else occurrences k ms)
unfolding count_if keep_if
occurrences-erase n k [] = ground arith
occurrences-erase n k (m ∷ ms) =
    ground
      (arith, occurrences-erase n k ms, text_eq_iff m.name n, text_eq_iff m.name k, text_eq_iff n k)

pub size-erase :
    (n g : Text) (ms : List GroupMember)
    → size g (erase_named n ms) + count_if (in_named n g) ms ≡ size g ms
unfolding count_if keep_if
size-erase n g [] = omega arith
size-erase n g (m ∷ ms) = ground (arith, size-erase n g ms)

pub leaders-erase :
    (n g : Text) (ms : List GroupMember)
    → leaders g (erase_named n ms) + count_if (leads_named n g) ms ≡ leaders g ms
unfolding count_if keep_if
leaders-erase n g [] = omega arith
leaders-erase n g (m ∷ ms) = ground (arith, leaders-erase n g ms)

pub leads_named-le :
    (n g : Text) (ms : List GroupMember)
    → count_if (leads_named n g) ms ≤ count_if (in_named n g) ms
unfolding count_if
leads_named-le n g [] = omega arith
leads_named-le n g (m ∷ ms) = ground (arith, leads_named-le n g ms)

pub in_named-le :
    (n g : Text) (ms : List GroupMember) → count_if (in_named n g) ms ≤ occurrences n ms
unfolding count_if
in_named-le n g [] = omega arith
in_named-le n g (m ∷ ms) = ground (arith, in_named-le n g ms)

pub leaders-le-size : (g : Text) (ms : List GroupMember) → leaders g ms ≤ size g ms
unfolding count_if
leaders-le-size g [] = omega arith
leaders-le-size g (m ∷ ms) = ground (arith, leaders-le-size g ms)

-- A name that is there once is in one group only: the one that the lookup finds.
pub in_named-elsewhere :
    (n g : Text) (ms : List GroupMember)
    → occurrences n ms ≤ 1
    → find_group_id n ms ≢ g
    → count_if (in_named n g) ms ≡ 0
unfolding count_if find_group_id
in_named-elsewhere n g [] u e = refl
in_named-elsewhere n g (m ∷ ms) u e =
    ground (arith, in_named-elsewhere n g ms, in_named-le n g ms, text_eq_iff m.group_id g)

-- A group that the lookup finds is not empty.
pub size-find_group_id :
    (n : Text) (ms : List GroupMember) → find_group_id n ms ≢ [] → 1 ≤ size (find_group_id n ms) ms
unfolding count_if find_group_id
size-find_group_id n [] e = absurd (e refl)
size-find_group_id n (m ∷ ms) e =
    ground (arith, size-find_group_id n ms, text_eq_iff m.group_id m.group_id)

-- Nobody of that name: the lookup finds nothing.
pub find_group_id-absent :
    (n : Text) (ms : List GroupMember) → occurrences n ms ≡ 0 → find_group_id n ms ≡ []
unfolding count_if find_group_id
find_group_id-absent n [] u = refl
find_group_id-absent n (m ∷ ms) u = ground (arith, find_group_id-absent n ms)

-- With no member outside every group, the lookup finds nothing only for an absent name.
pub occurrences-find_group_id :
    (n : Text) (ms : List GroupMember)
    → size [] ms ≡ 0
    → find_group_id n ms ≡ []
    → occurrences n ms ≡ 0
unfolding count_if find_group_id
occurrences-find_group_id n [] z e = refl
occurrences-find_group_id n (m ∷ ms) z e =
    ground (arith, occurrences-find_group_id n ms, text_eq_iff m.group_id [])
