-- ===== src/Chat/RawSafety.antt =====
-- The binary reader never reads outside its input, and where each field comes from.
use u_dara_chat.Base.{
  ℕ, ◌+◌, ◌*◌, ◌≤◌, ◌≡◌, inl, inr, ◌||◌, Text, codes, text_eq, length, take, drop, ltb, arith,
  Bool-cases,
}
use u_dara_chat.Chat.Raw.{
  Outcome, fault, refused, done, ◌>>=◌, read_bytes, read_float, le32, read_string, is_negative,
  wchar_size, check_header, deserialize_raw,
}

-- A read of `count` bytes from a place within bounds.
read_bytes_done :
    (bytes : Text) (o n : ℕ)
    → o + n ≤ length bytes
    → read_bytes bytes o n ≡ done (take n (drop o bytes))
unfolding read_bytes
read_bytes_done bytes o n h = ground arith

-- What a reader returns: it refuses, or it returns and does not fault.
abbrev pub Safe : {A : Type 0} → Outcome A → Type 0
Safe fault = ⊥
Safe refused = Unit
Safe (done a) = Unit

Safe-bind :
    {A B : Type 0} (m : Outcome A) (f : A → Outcome B)
    → Safe m
    → ((a : A) → Safe (f a))
    → Safe (m >>= f)
Safe-bind fault f s k = s
Safe-bind refused f s k = tt
Safe-bind (done a) f s k = k a

read_float-Safe : (bytes : Text) (o : ℕ) → Safe (read_float bytes o)
unfolding read_float
read_float-Safe bytes o = elim (Bool-cases (ltb (length bytes) (o + 4))) [
  | inl h ↦ rw h tt
  | inr h ↦ rw (h, read_bytes_done bytes o 4 (ground arith)) tt
]

read_string-Safe : (bytes : Text) (o : ℕ) → Safe (read_string bytes o)
unfolding read_string
read_string-Safe bytes o = elim (Bool-cases (ltb (length bytes) (o + 4))) [
  | inl h ↦ rw h tt
  | inr h ↦
      let n : ℕ = le32 (take 4 (drop o bytes)) in
      rw (h, read_bytes_done bytes o 4 (ground arith))
        (elim (Bool-cases (is_negative n || ltb (length bytes) (o + 4 + n * wchar_size))) [
          | inl refuse ↦ rw refuse tt
          | inr accept ↦ rw (accept, read_bytes_done bytes (o + 4) n (ground arith)) tt
        ])
]

check_header-Safe : (bytes : Text) → Safe (check_header bytes)
unfolding check_header
check_header-Safe bytes = elim (Bool-cases (ltb (length bytes) 4)) [
  | inl h ↦ rw h tt
  | inr h ↦
      rw (h, read_bytes_done bytes 0 4 (ground arith))
        (elim (Bool-cases (text_eq (take 4 bytes) (codes "DARA"))) [
          | inl e ↦ rw e tt
          | inr e ↦ rw e tt
        ])
]

-- No input makes the reader touch a byte outside it.
pub deserialize_raw-Safe : (bytes : Text) → Safe (deserialize_raw bytes)
unfolding deserialize_raw
deserialize_raw-Safe bytes =
    search (Safe-bind, check_header-Safe, read_float-Safe, read_string-Safe) depth 30
