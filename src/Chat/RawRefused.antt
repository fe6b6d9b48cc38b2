-- ===== src/Chat/RawRefused.antt =====
-- What `FDaraRawChatMsg::Serialize` writes, at `Deserialize`.
use u_dara_chat.Base.{ℕ, ◌≡◌, refl, [], ◌∷◌, Text, text_eq}
use u_dara_chat.Chat.Raw.{
  refused, read_bytes, read_float, read_string, check_header, deserialize_raw, serialize_raw,
}

-- The four bytes of a float.
pub record Float : Type 0 where
  pub a : ℕ
  pub b : ℕ
  pub c : ℕ
  pub d : ℕ

abbrev pub bytes_of : Float → Text
bytes_of f = f.a ∷ f.b ∷ f.c ∷ f.d ∷ []

-- Whatever a message's floats and strings are, `Deserialize` refuses the bytes that
-- `Serialize` writes for it, since it leaves out the two strings.
pub deserialize_raw-serialize_raw :
    (x y z health max_health mana max_mana energy max_energy : Float) (zone char_name : Text)
    → deserialize_raw (
        serialize_raw (record {
          x = bytes_of x;
          y = bytes_of y;
          z = bytes_of z;
          health = bytes_of health;
          max_health = bytes_of max_health;
          mana = bytes_of mana;
          max_mana = bytes_of max_mana;
          energy = bytes_of energy;
          max_energy = bytes_of max_energy;
          zone = zone;
          char_name = char_name;
        }))
      ≡ refused
unfolding deserialize_raw serialize_raw check_header read_float read_string read_bytes text_eq
deserialize_raw-serialize_raw x y z health max_health mana max_mana energy max_energy zone
      char_name =
    refl
