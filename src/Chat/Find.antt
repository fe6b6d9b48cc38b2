-- ===== src/Chat/Find.antt =====
-- `find` and `substr` on a text that is put together around the byte that is looked for.
use u_dara_chat.Base.{
  ℕ, zero, suc, ◌+◌, ◌≡◌, refl, ap, ◌∙◌, ◌⊎◌, inl, inr, false, [], ◌∷◌, ◌++◌, none, some, Text,
  length, take, drop, any_of, ◌==◌, arith, Bool-cases,
}
use native.Mathlib.Nat.{zero-add}
use u_dara_chat.Chat.Message.{find_first, find_from}

-- The byte does not occur.
abbrev pub Free : ℕ → Text → Type 0
Free c s = any_of (λ d. d == c) s ≡ false

pub append-Free : (c : ℕ) (s t : Text) → Free c s → Free c t → Free c (s ++ t)
unfolding any_of
append-Free c [] t f g = g
append-Free c (d ∷ s) t f g = ground (arith, append-Free c s t)

pub find_first-append :
    (c : ℕ) (p r : Text) → Free c p → find_first c (p ++ c ∷ r) ≡ some (length p)
unfolding find_first any_of
find_first-append c [] r f = ground arith
find_first-append c (d ∷ p) r f = ground (arith, find_first-append c p r)

pub find_first-none : (c : ℕ) (s : Text) → Free c s → find_first c s ≡ none
unfolding find_first any_of
find_first-none c [] f = refl
find_first-none c (d ∷ s) f = ground (arith, find_first-none c s)

-- Either the byte does not occur, or the text splits at its first occurrence.
pub find-cases :
    (c : ℕ) (s : Text) → Free c s ⊎ ((p : Text) × (r : Text) × Free c p × (s ≡ p ++ c ∷ r))
unfolding any_of
find-cases c [] = inl refl
find-cases c (d ∷ s) = elim (Bool-cases (d == c)) [
  | inl h ↦ inr ([], s, refl, ground arith)
  | inr h ↦ elim (find-cases c s) [
    | inl f ↦ inl (ground arith)
    | inr (p, r, f, e) ↦ inr (d ∷ p, r, ground arith, ground arith)
  ]
]

pub drop-length : (p r : Text) → drop (length p) (p ++ r) ≡ r
drop-length [] r = refl
drop-length (x ∷ p) r = drop-length p r

pub take-length : (p r : Text) → take (length p) (p ++ r) ≡ p
take-length [] r = refl
take-length (x ∷ p) r = ap (◌∷◌ x) (take-length p r)

drop-nil : (n : ℕ) → drop {A = ℕ} n [] ≡ []
drop-nil zero = refl
drop-nil (suc n) = refl

pub drop-add : (m n : ℕ) (s : Text) → drop (m + n) s ≡ drop n (drop m s)
drop-add zero n s = rw zero-add refl
drop-add (suc m) n [] = rw (drop-nil (suc m + n), drop-nil n) refl
drop-add (suc m) n (x ∷ s) = let e : suc m + n ≡ suc (m + n) = omega arith in rw e (drop-add m n s)

-- Behind the byte.
pub drop_past : (c : ℕ) (p r : Text) → drop (length p + 1) (p ++ c ∷ r) ≡ r
drop_past c p r = drop-add (length p) 1 (p ++ c ∷ r) ∙ rw (drop-length p (c ∷ r)) refl

-- `find(c, from)` where the rest from there on is known.
pub find_from-found :
    (c : ℕ) (s : Text) (from : ℕ) (p r : Text)
    → drop from s ≡ p ++ c ∷ r
    → Free c p
    → find_from c s from ≡ some (from + length p)
unfolding find_from
find_from-found c s from p r e f = ground (arith, e, find_first-append c p r f)

pub find_from-none :
    (c : ℕ) (s : Text) (from : ℕ) (r : Text)
    → drop from s ≡ r
    → Free c r
    → find_from c s from ≡ none
unfolding find_from
find_from-none c s from r e f = ground (arith, e, find_first-none c r f)
