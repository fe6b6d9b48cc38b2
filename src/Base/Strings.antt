-- ===== src/Base/Strings.antt =====
-- `std::string` as the list of its bytes, with the members of it that the program uses.
use Prim.Native.Char.{code}
use Prim.Native.String.{String}
use Prim.Native.Nat.{ℕ}
use mathlib.Core.Path.{◌≡◌, refl}
use mathlib.Core.Logic.{◌↔◌, ◌≢◌, ◌⊎◌, inl, inr}
use mathlib.Core.Bool.{Bool, true, false, ◌&&◌}
use mathlib.Core.List.{List, [], ◌∷◌, ◌++◌}
use native.Mathlib.Omega.{arith}
use u_dara_chat.Base.Tests.{◌==◌, Bool-cases, if◌then◌else◌}

abbrev pub Text : Type 0
Text = List ℕ

-- The bytes of a literal (the program's literals are ASCII).
abbrev pub codes : String → Text
codes String.[] = []
codes (String.◌∷◌ c s) = code c ∷ codes s

-- `operator==`.
unfoldable pub text_eq : Text → Text → Bool
text_eq [] [] = true
text_eq (x ∷ xs) (y ∷ ys) = x == y && text_eq xs ys
text_eq _ _ = false

-- `empty()`.
abbrev pub is_empty : Text → Bool
is_empty [] = true
is_empty (_ ∷ _) = false

-- The parts that `while (std::getline(stream, part, c))` sees: nothing comes behind a last
-- delimiter.
abbrev pub prepend : ℕ → List Text → List Text
prepend d [] = (d ∷ []) ∷ []
prepend d (p ∷ ps) = (d ∷ p) ∷ ps

unfoldable pub getlines : ℕ → Text → List Text
getlines c [] = []
getlines c (d ∷ s) = let rest = getlines c s in if d == c then [] ∷ rest else prepend d rest

-- `rfind(prefix, 0) == 0`.
unfoldable pub starts_with : Text → Text → Bool
starts_with [] s = true
starts_with (c ∷ p) [] = false
starts_with (c ∷ p) (d ∷ s) = c == d && starts_with p s

pub text_eq_iff : (a b : Text) → (text_eq a b ≡ true) ↔ (a ≡ b)
unfolding text_eq
text_eq_iff [] [] = ground arith
text_eq_iff (x ∷ a) (y ∷ b) = ground (arith, text_eq_iff a b)
text_eq_iff [] (y ∷ b) = ground arith
text_eq_iff (x ∷ a) [] = ground arith

pub text_cases : (a b : Text) → (a ≡ b) ⊎ (a ≢ b)
text_cases a b = elim (Bool-cases (text_eq a b)) [
  | inl h ↦ inl ((text_eq_iff a b).0 h)
  | inr h ↦ inr λ e. cc ((text_eq_iff a b).1 e)
]

pub text_ne : (a b : Text) → a ≢ b → text_eq a b ≡ false
text_ne a b e = ground (arith, text_eq_iff a b)

pub text_eq_refl : (a : Text) → text_eq a a ≡ true
text_eq_refl a = (text_eq_iff a a).1 refl

pub starts_with-append : (p s : Text) → starts_with p (p ++ s) ≡ true
unfolding starts_with
starts_with-append [] s = refl
starts_with-append (c ∷ p) s = ground (arith, starts_with-append p s)

pub is_empty_iff : (a : Text) → (is_empty a ≡ true) ↔ (a ≡ [])
is_empty_iff [] = ground arith
is_empty_iff (x ∷ a) = ground arith

pub not_empty : (a : Text) → a ≢ [] → is_empty a ≡ false
not_empty [] e = absurd (e refl)
not_empty (x ∷ a) e = refl
