-- ===== src/Server/Address.antt =====
-- `ConvertMappedIPv6ToIPv4`, which the `open` handler calls for its log line, and `std::stoi` with
-- base 16.
use u_dara_chat.Base.Decimal.{to_string, is_digit, skip_spaces, int_max}
use u_dara_chat.Base.Int.{ℤ, pos, negsuc}
use u_dara_chat.Base.{
  ℕ, ◌+◌, ◌-◌, ◌*◌, ◌/◌, ◌%◌, ◌^◌, Bool, false, ◌||◌, ◌&&◌, [], ◌∷◌, ◌++◌, Option, none, some, Text,
  codes, take, drop, leb, ◌==◌, if◌then◌else◌,
}
use u_dara_chat.Group.Wire.{find_last}

abbrev pub is_hex_digit : ℕ → Bool
is_hex_digit c = is_digit c || ((leb b'a' c && leb c b'f') || (leb b'A' c && leb c b'F'))

abbrev pub digit_value : ℕ → ℕ
digit_value c = if is_digit c then c - b'0' else if leb b'a' c then c - b'a' + 10 else c - b'A' + 10

-- The value of the hexadecimal digits that a text begins with.
unfoldable pub hex_value : ℕ → Text → ℕ
hex_value v [] = v
hex_value v (c ∷ s) =
    let rest = hex_value (v * 16 + digit_value c) s in if is_hex_digit c then rest else v

abbrev pub starts_with_hex : Text → Bool
starts_with_hex [] = false
starts_with_hex (c ∷ s) = is_hex_digit c

-- The optional `0x`, which counts only in front of a digit.
abbrev pub without_prefix : Text → Text
without_prefix (c ∷ x ∷ s) =
    if c == b'0' && ((x == b'x' || x == b'X') && starts_with_hex s) then s else c ∷ x ∷ s
without_prefix s = s

abbrev pub hex_pos : Text → Option ℤ
hex_pos s =
    if starts_with_hex s && leb (hex_value 0 s) int_max then some (pos (hex_value 0 s)) else none

abbrev pub hex_neg : Text → Option ℤ
hex_neg s =
    if starts_with_hex s && leb (hex_value 0 s) (int_max + 1)
    then some (if hex_value 0 s == 0 then pos 0 else negsuc (hex_value 0 s - 1))
    else none

abbrev pub hex_signed : Text → Option ℤ
hex_signed [] = none
hex_signed (c ∷ s) =
    if c == b'-'
    then hex_neg (without_prefix s)
    else if c == b'+'
    then hex_pos (without_prefix s)
    else hex_pos (without_prefix (c ∷ s))

-- `none` where it throws.
unfoldable pub stoi_hex : Text → Option ℤ
stoi_hex s = hex_signed (skip_spaces s)

-- The bits of an `int`.
abbrev pub word : ℤ → ℕ
word (pos n) = n % 2 ^ 32
word (negsuc n) = 2 ^ 32 - 1 - n % 2 ^ 32

-- The bytes `(h >> 8) & 0xFF` and `h & 0xFF` of both halves.
abbrev pub dotted : ℕ → ℕ → ℕ → ℕ → Text
dotted a b c d =
    to_string a
    ++ (codes "." ++ (to_string b ++ (codes "." ++ (to_string c ++ (codes "." ++ to_string d)))))

abbrev pub halves : Option ℤ → Option ℤ → Option Text
halves none h2 = none
halves (some h1) none = none
halves (some h1) (some h2) =
    some (dotted (word h1 / 256 % 256) (word h1 % 256) (word h2 / 256 % 256) (word h2 % 256))

-- With the positions of the last colon and of the one before; the length of the first part is a
-- `size_t`.
abbrev pub between : Text → ℕ → Option ℕ → Option Text
between ipv6 last none = some []
between ipv6 last (some second) =
    halves (stoi_hex (take ((last + 2 ^ 64 - second - 1) % 2 ^ 64) (drop (second + 1) ipv6)))
      (stoi_hex (drop (last + 1) ipv6))

-- `rfind` from `lastColon - 1`, which wraps around to the end of the text at 0.
abbrev pub before_last : Text → Option ℕ → Option Text
before_last ipv6 none = some []
before_last ipv6 (some last) =
    between ipv6 last (if last == 0 then find_last b':' ipv6 else find_last b':' (take last ipv6))

-- `none` where an exception leaves the function.
unfoldable pub convert_mapped_ipv6_to_ipv4 : Text → Option Text
convert_mapped_ipv6_to_ipv4 ipv6 = before_last ipv6 (find_last b':' ipv6)
