-- ===== src/Group/Lookup.antt =====
-- How the lookup by name, and the answers built from it, follow an edit of the member list.
use u_dara_chat.Base.{
  ◌≡◌, refl, sym, ◌≢◌, Bool, true, List, [], ◌∷◌, ◌++◌, Text, text_eq, text_eq_iff, text_eq_refl,
  text_ne, count_if, keep_if, arith, if◌then◌else◌,
}
use u_dara_chat.Group.Container.{erase_named, assign_from}
use u_dara_chat.Group.Count.{occurrences}
use u_dara_chat.Group.Info.{in_group, leads, find_group_id}
use u_dara_chat.Group.Query.{last_leader}
use u_dara_chat.Group.Types.{GroupMember}

pub find_group_id-push_found :
    (n : Text) (ms : List GroupMember) (m : GroupMember)
    → find_group_id n ms ≢ []
    → find_group_id n (ms ++ m ∷ []) ≡ find_group_id n ms
unfolding find_group_id
find_group_id-push_found n [] m e = absurd (e refl)
find_group_id-push_found n (k ∷ ms) m e = ground (arith, find_group_id-push_found n ms m)

pub find_group_id-push_new :
    (n : Text) (ms : List GroupMember) (m : GroupMember)
    → occurrences n ms ≡ 0
    → m.name ≡ n
    → find_group_id n (ms ++ m ∷ []) ≡ m.group_id
unfolding find_group_id count_if
find_group_id-push_new n [] m e h = ground (arith, text_eq_iff m.name n)
find_group_id-push_new n (k ∷ ms) m e h = ground (arith, find_group_id-push_new n ms m)

pub find_group_id-push_other :
    (n : Text) (ms : List GroupMember) (m : GroupMember)
    → m.name ≢ n
    → find_group_id n (ms ++ m ∷ []) ≡ find_group_id n ms
unfolding find_group_id
find_group_id-push_other n [] m h = ground (arith, text_eq_iff m.name n)
find_group_id-push_other n (k ∷ ms) m h = ground (arith, find_group_id-push_other n ms m)

pub find_group_id-erase :
    (k n : Text) (ms : List GroupMember)
    → find_group_id n (erase_named k ms) ≡ (if text_eq k n then [] else find_group_id n ms)
unfolding find_group_id keep_if
find_group_id-erase k n [] = ground arith
find_group_id-erase k n (m ∷ ms) =
    ground (
      arith,
      find_group_id-erase k n ms,
      text_eq_iff m.name n,
      text_eq_iff m.name k,
      text_eq_iff k n,
    )

pub find_group_id-erase_self :
    (n : Text) (ms : List GroupMember) → find_group_id n (erase_named n ms) ≡ []
find_group_id-erase_self n ms = rw (find_group_id-erase n n ms, text_eq_refl n) refl

pub find_group_id-erase_other :
    (k n : Text) (ms : List GroupMember)
    → n ≢ k
    → find_group_id n (erase_named k ms) ≡ find_group_id n ms
find_group_id-erase_other k n ms ne =
    rw (find_group_id-erase k n ms, text_ne k n (λ (q : k ≡ n). ne (sym q))) refl

pub find_group_id-assign :
    (n g : Text) (b : Bool) (ms : List GroupMember)
    → find_group_id n (assign_from g b ms) ≡ find_group_id n ms
unfolding find_group_id assign_from
find_group_id-assign n g b [] = refl
find_group_id-assign n g b (m ∷ ms) =
    ground (arith, find_group_id-assign n g true ms, find_group_id-assign n g b ms)

pub last_leader-push {ℓ} :
    {A : Type ℓ} (g : Text) (f : GroupMember → A) (acc : A) (ms : List GroupMember)
    (m : GroupMember)
    → last_leader g f acc (ms ++ m ∷ []) ≡ (if leads g m then f m else last_leader g f acc ms)
last_leader-push g f acc [] m = refl
last_leader-push g f acc (k ∷ ms) m = last_leader-push g f (if leads g k then f k else acc) ms m

pub keep_if-push :
    (p : GroupMember → Bool) (ms : List GroupMember) (m : GroupMember)
    → keep_if p (ms ++ m ∷ []) ≡ keep_if p ms ++ (if p m then m ∷ [] else [])
unfolding keep_if
keep_if-push p [] m = refl
keep_if-push p (k ∷ ms) m = ground (arith, keep_if-push p ms m)

pub keep_if-none :
    (g : Text) (ms : List GroupMember) → count_if (in_group g) ms ≡ 0 → keep_if (in_group g) ms ≡ []
unfolding keep_if count_if
keep_if-none g [] z = refl
keep_if-none g (m ∷ ms) z = ground (arith, keep_if-none g ms)
