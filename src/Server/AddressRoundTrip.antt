-- ===== src/Server/AddressRoundTrip.antt =====
-- The text of an IPv4-mapped address is converted to the address that it stands for.
use u_dara_chat.Base.Decimal.{is_space, skip_spaces, int_max}
use u_dara_chat.Base.Int.{pos}
use u_dara_chat.Base.{
  ℕ, ◌+◌, ◌-◌, ◌*◌, ◌/◌, ◌%◌, ◌^◌, ◌<◌, ◌≡◌, refl, ap, ◌∙◌, true, false, [], ◌∷◌, ◌++◌, none, some,
  Text, any_of, length, length-append, append_assoc, drop, ◌==◌, ==_iff, leb, arith, Bool-cases,
  inl, inr,
}
use u_dara_chat.Chat.Find.{Free, take-length, drop_past}
use u_dara_chat.Group.Wire.{find_last}
use u_dara_chat.Server.Address.{
  is_hex_digit, digit_value, hex_value, stoi_hex, dotted, convert_mapped_ipv6_to_ipv4,
}

-- A group of the text: four hexadecimal digits, in small or capital letters.
pub record HexGroup : Type 0 where
  pub d1 : ℕ
  pub d2 : ℕ
  pub d3 : ℕ
  pub d4 : ℕ
  pub hex1 : is_hex_digit d1 ≡ true
  pub hex2 : is_hex_digit d2 ≡ true
  pub hex3 : is_hex_digit d3 ≡ true
  pub hex4 : is_hex_digit d4 ≡ true

abbrev pub digits : HexGroup → Text
digits g = g.d1 ∷ g.d2 ∷ g.d3 ∷ g.d4 ∷ []

-- The two bytes that the digits of a group stand for.
abbrev pub high : HexGroup → ℕ
high g = digit_value g.d1 * 16 + digit_value g.d2

abbrev pub low : HexGroup → ℕ
low g = digit_value g.d3 * 16 + digit_value g.d4

-- A digit, and which bytes it is not.
record Digit (c n : ℕ) : Type 0 where
  hex : is_hex_digit c ≡ true
  value : digit_value c ≡ n
  no_space : is_space c ≡ false
  no_minus : (c == b'-') ≡ false
  no_plus : (c == b'+') ≡ false
  no_x : (c == b'x') ≡ false
  no_capital_x : (c == b'X') ≡ false
  no_colon : (c == b':') ≡ false

is_hex_digit-Digit :
    (c : ℕ) → is_hex_digit c ≡ true → Digit c (digit_value c) × (digit_value c < 16)
is_hex_digit-Digit c h = (
  record {
    hex = h;
    value = refl;
    no_space = ground arith;
    no_minus = ground arith;
    no_plus = ground arith;
    no_x = ground arith;
    no_capital_x = ground arith;
    no_colon = ground arith;
  },
  ground arith,
)

hex_value-cons : (v c n : ℕ) (s : Text) → Digit c n → hex_value v (c ∷ s) ≡ hex_value (v * 16 + n) s
unfolding hex_value
hex_value-cons v c n s d = rw (d.hex, d.value) refl

hex_value-nil : (v : ℕ) → hex_value v [] ≡ v
unfolding hex_value
hex_value-nil v = refl

is_int : (v : ℕ) → v < 65536 → leb v int_max ≡ true
is_int v h = ground arith

-- Four digits.
stoi_hex-digits :
    (a b c d i j k l : ℕ)
    → Digit a i
    → Digit b j
    → Digit c k
    → Digit d l
    → i < 16
    → j < 16
    → k < 16
    → l < 16
    → stoi_hex (a ∷ b ∷ c ∷ d ∷ []) ≡ some (pos (((i * 16 + j) * 16 + k) * 16 + l))
unfolding stoi_hex skip_spaces
stoi_hex-digits a b c d i j k l da db dc dd hi hj hk hl =
    let value : hex_value 0 (a ∷ b ∷ c ∷ d ∷ []) ≡ ((i * 16 + j) * 16 + k) * 16 + l =
      hex_value-cons 0 a i (b ∷ c ∷ d ∷ []) da
      ∙ hex_value-cons (0 * 16 + i) b j (c ∷ d ∷ []) db
      ∙ hex_value-cons ((0 * 16 + i) * 16 + j) c k (d ∷ []) dc
      ∙ hex_value-cons (((0 * 16 + i) * 16 + j) * 16 + k) d l [] dd
      ∙ hex_value-nil _
      ∙ omega arith in
    let small : leb (((i * 16 + j) * 16 + k) * 16 + l) int_max ≡ true = is_int _ (omega arith) in
    elim (Bool-cases (a == b'0')) [
      | inl z ↦
          rw
            (
              da.no_space, da.no_minus, da.no_plus, db.no_x, db.no_capital_x, z, da.hex, value,
              small,
            )
            refl
      | inr z ↦ rw (da.no_space, da.no_minus, da.no_plus, z, da.hex, value, small) refl
    ]

two-digits : (i j : ℕ) → i < 16 → j < 16 → i * 16 + j < 256
two-digits i j hi hj = omega arith

four-digits : (i j k l : ℕ) → ((i * 16 + j) * 16 + k) * 16 + l ≡ (i * 16 + j) * 256 + (k * 16 + l)
four-digits i j k l = omega arith

find_last-none : (c : ℕ) (r : Text) → Free c r → find_last c r ≡ none
unfolding find_last any_of
find_last-none c [] f = refl
find_last-none c (d ∷ r) f = rw (find_last-none c r (ground arith)) (ground (arith, f))

find_last-split : (c : ℕ) (p r : Text) → Free c r → find_last c (p ++ c ∷ r) ≡ some (length p)
unfolding find_last any_of
find_last-split c [] r f = rw (find_last-none c r f) (ground (arith, ==_iff c c))
find_last-split c (d ∷ p) r f = rw (find_last-split c p r f) refl

module _ (g : HexGroup) where
  digits-Free : Free b':' (digits g)
  unfolding any_of
  digits-Free =
      let n1 = (is_hex_digit-Digit g.d1 g.hex1).0.no_colon in
      let n2 = (is_hex_digit-Digit g.d2 g.hex2).0.no_colon in
      let n3 = (is_hex_digit-Digit g.d3 g.hex3).0.no_colon in
      let n4 = (is_hex_digit-Digit g.d4 g.hex4).0.no_colon in rw (n1, n2, n3, n4) refl

  bytes-small : (high g < 256) × (low g < 256)
  bytes-small =
      let (_, h1) = is_hex_digit-Digit g.d1 g.hex1 in
      let (_, h2) = is_hex_digit-Digit g.d2 g.hex2 in
      let (_, h3) = is_hex_digit-Digit g.d3 g.hex3 in
      let (_, h4) = is_hex_digit-Digit g.d4 g.hex4 in (two-digits _ _ h1 h2, two-digits _ _ h3 h4)

  stoi_hex-digits_group : stoi_hex (digits g) ≡ some (pos (high g * 256 + low g))
  stoi_hex-digits_group =
      let (d1, h1) = is_hex_digit-Digit g.d1 g.hex1 in
      let (d2, h2) = is_hex_digit-Digit g.d2 g.hex2 in
      let (d3, h3) = is_hex_digit-Digit g.d3 g.hex3 in
      let (d4, h4) = is_hex_digit-Digit g.d4 g.hex4 in
      stoi_hex-digits _ _ _ _ _ _ _ _ d1 d2 d3 d4 h1 h2 h3 h4
      ∙ ap (λ v. some (pos v))
          (four-digits (digit_value g.d1) (digit_value g.d2) (digit_value g.d3) (digit_value g.d4))

-- The bytes of a half.
word-bytes :
    (a b : ℕ)
    → a < 256
    → b < 256
    → ((a * 256 + b) % 2 ^ 32 / 256 % 256 ≡ a) × ((a * 256 + b) % 2 ^ 32 % 256 ≡ b)
word-bytes a b ha hb = (omega arith, omega arith)

-- Whatever stands in front, a text that ends in two groups of four hexadecimal digits, in small or
-- capital letters and each behind a colon, is converted to the four bytes that these digits stand
-- for, in decimal and between dots; no exception leaves the function.
pub convert_mapped_ipv6_to_ipv4-digits :
    (front : Text) (g k : HexGroup)
    → convert_mapped_ipv6_to_ipv4 ((front ++ b':' ∷ digits g) ++ b':' ∷ digits k)
      ≡ some (dotted (high g) (low g) (high k) (low k))
unfolding convert_mapped_ipv6_to_ipv4
convert_mapped_ipv6_to_ipv4-digits front g k =
    let x : Text = digits g in
    let y : Text = digits k in
    let q : Text = front ++ b':' ∷ x in
    let last : find_last b':' (q ++ b':' ∷ y) ≡ some (length q) =
      find_last-split b':' q y (digits-Free k) in
    let second : find_last b':' q ≡ some (length front) =
      find_last-split b':' front x (digits-Free g) in
    let len : length q ≡ length front + 5 = length-append front (b':' ∷ x) in
    let some_text : (length q == 0) ≡ false = ground (arith, len) in
    let four : (length q + 2 ^ 64 - length front - 1) % 2 ^ 64 ≡ 4 = omega (arith, len) in
    let first_half : drop (length front + 1) (q ++ b':' ∷ y) ≡ x ++ b':' ∷ y =
      ap (drop (length front + 1)) (append_assoc front (b':' ∷ x) (b':' ∷ y))
      ∙ drop_past b':' front (x ++ b':' ∷ y) in
    let second_half : drop (length q + 1) (q ++ b':' ∷ y) ≡ y = drop_past b':' q y in
    let (high1, low1) = word-bytes (high g) (low g) (bytes-small g).0 (bytes-small g).1 in
    let (high2, low2) = word-bytes (high k) (low k) (bytes-small k).0 (bytes-small k).1 in
    rw
      (
        last,
        some_text,
        take-length q (b':' ∷ y),
        second,
        four,
        first_half,
        take-length x (b':' ∷ y),
        second_half,
        stoi_hex-digits_group g,
        stoi_hex-digits_group k,
        high1,
        low1,
        high2,
        low2,
      )
      refl
