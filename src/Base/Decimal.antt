-- ===== src/Base/Decimal.antt =====
-- `std::to_string` and `std::stoi`.
use u_dara_chat.Base.Int.{ℤ, pos, negsuc}
use u_dara_chat.Base.{
  ℕ, zero, suc, ◌+◌, ◌-◌, ◌*◌, ◌/◌, ◌%◌, ◌<◌, ◌≡◌, refl, ◌∙◌, Bool, true, false, ◌&&◌, ◌||◌, [],
  ◌∷◌, Option, none, some, Text, leb, Bool-cases, inl, inr, ◌==◌, arith, if◌then◌else◌,
}

-- The digits of a number in front of a text; a number below the fuel is printed whole.
unfoldable pub digits_onto : ℕ → ℕ → Text → Text
digits_onto zero n rest = rest
digits_onto (suc fuel) n rest =
    let more = digits_onto fuel (n / 10) ((b'0' + n % 10) ∷ rest) in
    if n / 10 == 0 then (b'0' + n % 10) ∷ rest else more

unfoldable pub to_string : ℕ → Text
to_string n = digits_onto (suc n) n []

unfoldable pub to_string_ℤ : ℤ → Text
to_string_ℤ (pos n) = to_string n
to_string_ℤ (negsuc n) = b'-' ∷ to_string (suc n)

abbrev pub is_digit : ℕ → Bool
is_digit c = leb b'0' c && leb c b'9'

-- The value of the digits that a text begins with.
unfoldable pub digits_value : ℕ → Text → ℕ
digits_value v [] = v
digits_value v (c ∷ s) =
    let rest = digits_value (v * 10 + (c - b'0')) s in if is_digit c then rest else v

abbrev pub starts_with_digit : Text → Bool
starts_with_digit [] = false
starts_with_digit (c ∷ s) = is_digit c

abbrev pub is_space : ℕ → Bool
is_space c = c == b' ' || (leb 9 c && leb c 13)

unfoldable pub skip_spaces : Text → Text
skip_spaces [] = []
skip_spaces (c ∷ s) = if is_space c then skip_spaces s else c ∷ s

abbrev pub int_max : ℕ
int_max = 2147483647

abbrev pub checked_pos : Text → Option ℤ
checked_pos s =
    if starts_with_digit s && leb (digits_value 0 s) int_max
    then some (pos (digits_value 0 s))
    else none

abbrev pub checked_neg : Text → Option ℤ
checked_neg s =
    if starts_with_digit s && leb (digits_value 0 s) (int_max + 1)
    then some (if digits_value 0 s == 0 then pos 0 else negsuc (digits_value 0 s - 1))
    else none

abbrev pub after_spaces : Text → Option ℤ
after_spaces [] = none
after_spaces (c ∷ s) =
    if c == b'-' then checked_neg s else if c == b'+' then checked_pos s else checked_pos (c ∷ s)

-- `none` where it throws.
unfoldable pub stoi : Text → Option ℤ
stoi s = after_spaces (skip_spaces s)

-- Reading what was printed, from the value `v` of the digits before.
pub digits_value-digits_onto :
    (fuel n : ℕ) (rest : Text)
    → n < fuel
    → digits_value 0 (digits_onto fuel n rest) ≡ digits_value n rest
unfolding digits_value digits_onto
digits_value-digits_onto zero n rest h = elim h [ ]
digits_value-digits_onto (suc fuel) n rest h = elim (Bool-cases (n / 10 == 0)) [
  | inl small ↦
      let e : 0 * 10 + (b'0' + n % 10 - b'0') ≡ n = ground arith in
      let d : is_digit (b'0' + n % 10) ≡ true = ground arith in rw (small, d, e) refl
  | inr large ↦
      let e : n / 10 * 10 + (b'0' + n % 10 - b'0') ≡ n = omega arith in
      let d : is_digit (b'0' + n % 10) ≡ true = ground arith in
      rw large (
        digits_value-digits_onto fuel (n / 10) ((b'0' + n % 10) ∷ rest) (ground arith)
        ∙ rw (d, e) refl)
]
