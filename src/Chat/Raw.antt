-- ===== src/Chat/Raw.antt =====
-- The binary frame: `FDaraRawChatMsg::Deserialize` and `Serialize`. A `float` is kept as its four
-- bytes; `int32_t` is read as the little-endian machine does. Lengths stay far below 2 ^ 64
-- (a payload has 16 MB at most), so `size_t` sums are written without their wrap-around.
use u_dara_chat.Base.{
  ℕ, ◌+◌, ◌*◌, ◌^◌, Bool, ◌||◌, [], ◌∷◌, ◌++◌, Text, codes, text_eq, length, take, drop, ltb, leb,
  if◌then◌else◌,
}

-- `fault` is an access outside the vector; `refused` is `return false`.
pub data Outcome (A : Type 0) : Type 0 where
  fault : Outcome A
  refused : Outcome A
  done : A → Outcome A

infixl 5 ◌>>=◌
abbrev pub ◌>>=◌ : {A B : Type 0} → Outcome A → (A → Outcome B) → Outcome B
fault >>= f = fault
refused >>= f = refused
done a >>= f = f a

-- The fields as the members that `Deserialize` assigns; on `refused` the object is not used.
pub record DaraRawChatMsg : Type 0 where
  pub x : Text
  pub y : Text
  pub z : Text
  pub health : Text
  pub max_health : Text
  pub mana : Text
  pub max_mana : Text
  pub energy : Text
  pub max_energy : Text
  pub zone : Text
  pub char_name : Text

-- `memcpy`, `memcmp` and `assign` from `&data[offset]`, over `count` bytes.
unfoldable pub read_bytes : Text → ℕ → ℕ → Outcome Text
read_bytes bytes offset count =
    if leb (offset + count) (length bytes) then done (take count (drop offset bytes)) else fault

-- `readFloat`.
unfoldable pub read_float : Text → ℕ → Outcome (Text × ℕ)
read_float bytes offset =
    if ltb (length bytes) (offset + 4)
    then refused
    else do out ← read_bytes bytes offset 4; done (out, offset + 4)

-- The four bytes of an integer, least significant first.
unfoldable pub le32 : Text → ℕ
le32 [] = 0
le32 (b ∷ bs) = b + 256 * le32 bs

-- `strLen < 0` for the `int32_t` with that bit pattern.
abbrev pub is_negative : ℕ → Bool
is_negative u = leb (2 ^ 31) u

-- `sizeof(wchar_t)`.
abbrev pub wchar_size : ℕ
wchar_size = 4

-- `readString`.
unfoldable pub read_string : Text → ℕ → Outcome (Text × ℕ)
read_string bytes offset = if ltb (length bytes) (offset + 4) then refused else do
  header ← read_bytes bytes offset 4
  let str_len = le32 header
  if is_negative str_len || ltb (length bytes) (offset + 4 + str_len * wchar_size)
      then refused
      else (do out ← read_bytes bytes (offset + 4) str_len; done (out, offset + 4 + str_len))

unfoldable pub check_header : Text → Outcome ℕ
check_header bytes =
    if ltb (length bytes) 4
    then refused
    else do header ← read_bytes bytes 0 4; if text_eq header (codes "DARA") then done 4 else refused

unfoldable pub deserialize_raw : Text → Outcome DaraRawChatMsg
deserialize_raw bytes = do
  o ← check_header bytes
  (x, o) ← read_float bytes o
  (y, o) ← read_float bytes o
  (z, o) ← read_float bytes o
  (health, o) ← read_float bytes o
  (max_health, o) ← read_float bytes o
  (mana, o) ← read_float bytes o
  (max_mana, o) ← read_float bytes o
  (energy, o) ← read_float bytes o
  (max_energy, o) ← read_float bytes o
  (zone, o) ← read_string bytes o
  (char_name, o) ← read_string bytes o
  done (record {
    x = x;
    y = y;
    z = z;
    health = health;
    max_health = max_health;
    mana = mana;
    max_mana = max_mana;
    energy = energy;
    max_energy = max_energy;
    zone = zone;
    char_name = char_name;
  })

-- `SwapFloat`: the bytes of a float in the other order.
unfoldable pub swap_float : Text → Text
swap_float (a ∷ b ∷ c ∷ d ∷ rest) = d ∷ c ∷ b ∷ a ∷ rest
swap_float short = short

-- `Serialize` writes the header and the nine floats; the two strings are commented out.
unfoldable pub serialize_raw : DaraRawChatMsg → Text
serialize_raw m =
    codes "DARA"
    ++ (m.x
        ++ (m.y
            ++ (m.z
                ++ (m.health
                    ++ (m.max_health ++ (m.mana ++ (m.max_mana ++ (m.energy ++ m.max_energy))))))))
