-- ===== src/Base/Numerals.antt =====
-- `std::stoi` of what `std::to_string` prints.
use u_dara_chat.Base.Decimal.{
  digits_onto, to_string, to_string_ℤ, is_digit, digits_value, skip_spaces, int_max, stoi,
  digits_value-digits_onto,
}
use u_dara_chat.Base.Int.{ℤ, pos, negsuc}
use u_dara_chat.Base.{
  ℕ, zero, suc, ◌+◌, ◌/◌, ◌%◌, ◌≤◌, ◌<◌, ◌≡◌, ◌≢◌, refl, true, false, [], ◌∷◌, some, Text, any_of,
  ◌==◌, Bool-cases, inl, inr, arith,
}

-- A text that begins with a digit.
pub record DigitFirst (s : Text) : Type 0 where
  pub first : ℕ
  pub rest : Text
  pub splits : s ≡ first ∷ rest
  pub digit : is_digit first ≡ true

digits_onto-DigitFirst :
    (fuel n : ℕ) (rest : Text) → n < fuel → DigitFirst (digits_onto fuel n rest)
unfolding digits_onto
digits_onto-DigitFirst zero n rest h = elim h [ ]
digits_onto-DigitFirst (suc fuel) n rest h = elim (Bool-cases (n / 10 == 0)) [
  | inl small ↦
      rw small (record { first = b'0' + n % 10; rest = rest; splits = refl; digit = ground arith })
  | inr large ↦
      rw large (digits_onto-DigitFirst fuel (n / 10) ((b'0' + n % 10) ∷ rest) (ground arith))
]

digits_onto-free :
    (c fuel n : ℕ) (rest : Text)
    → is_digit c ≡ false
    → any_of (λ d. d == c) rest ≡ false
    → any_of (λ d. d == c) (digits_onto fuel n rest) ≡ false
unfolding digits_onto any_of
digits_onto-free c zero n rest h f = f
digits_onto-free c (suc fuel) n rest h f =
    let free : any_of (λ d. d == c) ((b'0' + n % 10) ∷ rest) ≡ false = ground arith in
    elim (Bool-cases (n / 10 == 0)) [
      | inl small ↦ rw small free
      | inr large ↦ rw large (digits_onto-free c fuel (n / 10) ((b'0' + n % 10) ∷ rest) h free)
    ]

digits_value-to_string : (n : ℕ) → digits_value 0 (to_string n) ≡ n
unfolding to_string digits_value
digits_value-to_string n = digits_value-digits_onto (suc n) n [] (omega arith)

to_string-DigitFirst : (n : ℕ) → DigitFirst (to_string n)
unfolding to_string
to_string-DigitFirst n = digits_onto-DigitFirst (suc n) n [] (omega arith)

-- The `int` values.
abbrev pub IsInt : ℤ → Type 0
IsInt (pos n) = n ≤ int_max
IsInt (negsuc n) = n ≤ int_max

stoi-to_string : (n : ℕ) → n ≤ int_max → stoi (to_string n) ≡ some (pos n)
unfolding stoi skip_spaces
stoi-to_string n h =
    let d = to_string-DigitFirst n in
    let v : digits_value 0 (d.first ∷ d.rest) ≡ n = rw d.splits at (digits_value-to_string n) in
    rw d.splits (ground (arith, d.digit, v))

pub stoi-to_string_ℤ : (z : ℤ) → IsInt z → stoi (to_string_ℤ z) ≡ some z
unfolding to_string_ℤ stoi skip_spaces
stoi-to_string_ℤ (pos n) h = stoi-to_string n h
stoi-to_string_ℤ (negsuc n) h =
    let d = to_string-DigitFirst (suc n) in
    let v : digits_value 0 (d.first ∷ d.rest) ≡ suc n =
      rw d.splits at (digits_value-to_string (suc n)) in
    rw d.splits (ground (arith, d.digit, v))

pub to_string_ℤ-free :
    (c : ℕ) (z : ℤ)
    → is_digit c ≡ false
    → (c == b'-') ≡ false
    → any_of (λ d. d == c) (to_string_ℤ z) ≡ false
unfolding to_string_ℤ to_string any_of
to_string_ℤ-free c (pos n) h k = digits_onto-free c (suc n) n [] h refl
to_string_ℤ-free c (negsuc n) h k =
    ground (arith, digits_onto-free c (suc (suc n)) (suc n) [] h refl)

pub to_string_ℤ-ne-nil : (z : ℤ) → to_string_ℤ z ≢ []
unfolding to_string_ℤ
to_string_ℤ-ne-nil (pos n) e = let d = to_string-DigitFirst n in cc d.splits
to_string_ℤ-ne-nil (negsuc n) e = cc
