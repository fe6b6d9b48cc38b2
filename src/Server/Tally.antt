-- ===== src/Server/Tally.antt =====
-- `std::map<std::string, size_t>` as the snapshot uses it: the order of its keys, and what
-- `++map[key]` does to its entries.
use u_dara_chat.Base.{
  ℕ, ◌+◌, ◌≡◌, refl, sym, ap, ◌∙◌, Bool, true, false, ◌&&◌, List, [], ◌∷◌, Text, text_eq,
  text_eq_iff, if◌then◌else◌, arith, Bool-cases, inl, inr,
}
use u_dara_chat.Server.Snapshot.{text_lt, increment}

text_lt_asym : (s t : Text) → text_lt s t ≡ true → text_lt t s ≡ false
unfolding text_lt
text_lt_asym s [] h = ground arith
text_lt_asym [] (y ∷ t) h = refl
text_lt_asym (x ∷ s) (y ∷ t) h = ground (arith, h, text_lt_asym s t)

text_lt_trans : (s t u : Text) → text_lt s t ≡ true → text_lt t u ≡ true → text_lt s u ≡ true
unfolding text_lt
text_lt_trans s t [] h k = ground (arith, k)
text_lt_trans [] t (z ∷ u) h k = refl
text_lt_trans (x ∷ s) [] (z ∷ u) h k = ground (arith, h)
text_lt_trans (x ∷ s) (y ∷ t) (z ∷ u) h k = ground (arith, h, k, text_lt_trans s t u)

text_lt_total : (s t : Text) → text_lt s t ≡ false → text_lt t s ≡ false → s ≡ t
unfolding text_lt
text_lt_total [] [] h k = refl
text_lt_total [] (y ∷ t) h k = ground (arith, h)
text_lt_total (x ∷ s) [] h k = ground (arith, k)
text_lt_total (x ∷ s) (y ∷ t) h k =
    let head : x ≡ y = ground (arith, h, k) in
    let tail : s ≡ t = text_lt_total s t (ground (arith, h, k)) (ground (arith, h, k)) in
    ap (λ a. a ∷ s) head ∙ ap (λ u. y ∷ u) tail

-- How often a key is counted.
unfoldable pub tally : Text → List (Text × ℕ) → ℕ
tally k [] = 0
tally k ((j, n) ∷ m) = (if text_eq j k then n else 0) + tally k m

pub tally-increment :
    (k j : Text) (m : List (Text × ℕ))
    → tally k (increment j m) ≡ (if text_eq j k then 1 else 0) + tally k m
unfolding tally increment
tally-increment k j [] = refl
tally-increment k j ((i, n) ∷ m) =
    ground (arith, tally-increment k j m, text_eq_iff i j, text_eq_iff i k, text_eq_iff j k)

-- The key is smaller than the first one.
abbrev pub is_below : Text → List (Text × ℕ) → Bool
is_below k [] = true
is_below k ((j, _) ∷ _) = text_lt k j

-- The keys are in the order of the map, so that none is there twice.
unfoldable pub is_ordered : List (Text × ℕ) → Bool
is_ordered [] = true
is_ordered ((k, _) ∷ m) = is_below k m && is_ordered m

is_below-increment :
    (i k : Text) (m : List (Text × ℕ))
    → text_lt i k ≡ true
    → is_below i m ≡ true
    → is_below i (increment k m) ≡ true
unfolding increment
is_below-increment i k [] h b = h
is_below-increment i k ((j, n) ∷ m) h b = ground (arith, h, b)

pub increment-is_ordered :
    (k : Text) (m : List (Text × ℕ)) → is_ordered m ≡ true → is_ordered (increment k m) ≡ true
unfolding increment is_ordered
increment-is_ordered k [] h = refl
increment-is_ordered k ((j, n) ∷ m) h = elim (Bool-cases (text_eq j k)) [
  | inl e ↦ rw e h
  | inr e ↦ elim (Bool-cases (text_lt k j)) [
    | inl l ↦ rw (e, l) (ground (arith, l, h))
    | inr l ↦ elim (Bool-cases (text_lt j k)) [
      | inr g ↦ ground (arith, text_lt_total j k g l, text_eq_iff j k)
      | inl g ↦
          rw (e, l)
            (ground (
              arith,
              is_below-increment j k m g (ground (arith, h)),
              increment-is_ordered k m (ground (arith, h)),
            ))
    ]
  ]
]

increment_comm-less :
    (j k : Text) (m : List (Text × ℕ))
    → text_lt j k ≡ true
    → increment j (increment k m) ≡ increment k (increment j m)
unfolding increment
increment_comm-less j k [] h =
    ground (arith, h, text_lt_asym j k h, text_eq_iff j k, text_eq_iff k j)
increment_comm-less j k ((i, n) ∷ m) h = ground (
  arith,
  h,
  text_lt_asym j k h,
  text_eq_iff j k,
  text_eq_iff k j,
  text_eq_iff i j,
  text_eq_iff i k,
  text_lt_trans j k i h,
  increment_comm-less j k m h,
)

-- The order of two counts does not matter.
pub increment_comm :
    (j k : Text) (m : List (Text × ℕ)) → increment j (increment k m) ≡ increment k (increment j m)
increment_comm j k m = elim (Bool-cases (text_lt j k)) [
  | inl h ↦ increment_comm-less j k m h
  | inr h ↦ elim (Bool-cases (text_lt k j)) [
    | inl g ↦ sym (increment_comm-less k j m g)
    | inr g ↦ rw (text_lt_total j k h g) refl
  ]
]
