-- ===== src/Group/WireRoundTrip.antt =====
-- `GroupInfo::Deserialize` of what `SerializeToSend` writes.
use u_dara_chat.Base.Decimal.{to_string_ℤ}
use u_dara_chat.Base.Numerals.{IsInt, stoi-to_string_ℤ, to_string_ℤ-free, to_string_ℤ-ne-nil}
use u_dara_chat.Base.{
  ℕ, ◌≡◌, refl, sym, ap, ◌∙◌, ◌≢◌, Bool, true, false, List, [], ◌∷◌, ◌++◌, map, append-nil,
  append_assoc, some, Text, codes, text_eq, length, getlines, any_of, ◌==◌, arith,
}
use u_dara_chat.Chat.Find.{append-Free, Free, take-length, drop_past}
use u_dara_chat.Chat.Split.{getlines-append, getlines-last}
use u_dara_chat.Group.Types.{GroupMember, GroupInfo, new_group_member}
use u_dara_chat.Group.Wire.{
  bool_text, serialize_members, serialize_to_send, find_last, deserialize_member, deserialize_parts,
  deserialize,
}

abbrev NoSeparator : Text → Type 0
NoSeparator = Free b';'

-- No member's name has a semicolon.
pub data AllNoSeparator : List GroupMember → Type 0 where
  nobody : AllNoSeparator []
  member :
      {m : GroupMember} {ms : List GroupMember}
      → NoSeparator m.name
      → AllNoSeparator ms
      → AllNoSeparator (m ∷ ms)

-- What a receiver learns of a member: its name and whether it is online.
abbrev pub received : ℕ → GroupMember → GroupMember
received now m = record (new_group_member now) { name = m.name; is_online = m.is_online }

abbrev member_part : GroupMember → Text
member_part m = m.name ++ (b',' ∷ bool_text m.is_online)

append-ne-nil : (s : Text) (d : ℕ) (t : Text) → s ++ d ∷ t ≢ []
append-ne-nil [] d t e = cc
append-ne-nil (c ∷ s) d t e = cc

bool_text-free : (b : Bool) → NoSeparator (bool_text b)
unfolding any_of
bool_text-free true = refl
bool_text-free false = refl

flag-free : (b : Bool) → NoSeparator (b',' ∷ bool_text b)
unfolding any_of
flag-free true = refl
flag-free false = refl

member_part-free : (m : GroupMember) → NoSeparator m.name → NoSeparator (member_part m)
member_part-free m f = append-Free b';' m.name _ f (flag-free m.is_online)

getlines-serialize_members :
    (t : Text) (ms : List GroupMember)
    → NoSeparator t
    → t ≢ []
    → AllNoSeparator ms
    → getlines b';' (t ++ serialize_members ms) ≡ t ∷ map member_part ms
unfolding serialize_members
getlines-serialize_members t [] f e a = rw (append-nil t) (getlines-last b';' t f e)
getlines-serialize_members t (m ∷ ms) f e (member g a) =
    getlines-append b';' t _ f
    ∙ ap (λ x. t ∷ x)
        (ap (getlines b';')
            (sym (append_assoc m.name (b',' ∷ bool_text m.is_online) (serialize_members ms)))
          ∙ getlines-serialize_members (member_part m) ms (member_part-free m g)
              (append-ne-nil m.name _ _) a)

find_last-append :
    (c d : ℕ) (s : Text) → (d == c) ≡ false → find_last c (s ++ c ∷ d ∷ []) ≡ some (length s)
unfolding find_last
find_last-append c d [] e = ground arith
find_last-append c d (b ∷ s) e = rw (find_last-append c d s e) refl

deserialize_named :
    (now : ℕ) (n : Text) (b : Bool)
    → deserialize_member now (n ++ (b',' ∷ bool_text b))
      ≡ record (new_group_member now) { name = n; is_online = b }
unfolding deserialize_member text_eq
deserialize_named now n true =
    rw
      (
        find_last-append b',' b'1' n refl,
        deserialize_member,
        drop_past b',' n (codes "1"),
        take-length n (codes ",1"),
      )
      refl
deserialize_named now n false =
    rw
      (
        find_last-append b',' b'0' n refl,
        deserialize_member,
        drop_past b',' n (codes "0"),
        take-length n (codes ",0"),
      )
      refl

map-deserialize_member :
    (now : ℕ) (ms : List GroupMember)
    → map (deserialize_member now) (map member_part ms) ≡ map (received now) ms
map-deserialize_member now [] = refl
map-deserialize_member now (m ∷ ms) =
    rw (deserialize_named now m.name m.is_online, map-deserialize_member now ms) refl

flag_read : (b : Bool) → text_eq (bool_text b) (codes "1") ≡ b
unfolding text_eq
flag_read true = refl
flag_read false = refl

parts_of :
    (info : GroupInfo)
    → NoSeparator info.group_id
    → NoSeparator info.leader_name
    → AllNoSeparator info.group_members
    → getlines b';' (serialize_to_send info)
      ≡ info.group_id
        ∷ info.leader_name
        ∷ bool_text info.is_leader
        ∷ to_string_ℤ info.member_count
        ∷ to_string_ℤ info.error_code
        ∷ map member_part info.group_members
unfolding serialize_to_send
parts_of info f g a =
    rw
      (
        getlines-append b';' info.group_id
            (info.leader_name
              ++ (b';'
                  ∷ (bool_text info.is_leader
                      ++ (b';'
                          ∷ (to_string_ℤ info.member_count
                              ++ (b';'
                                  ∷ (to_string_ℤ info.error_code
                                      ++ serialize_members info.group_members)))))))
            f,
        getlines-append b';' info.leader_name
            (bool_text info.is_leader
              ++ (b';'
                  ∷ (to_string_ℤ info.member_count
                      ++ (b';'
                          ∷ (to_string_ℤ info.error_code
                              ++ serialize_members info.group_members)))))
            g,
        getlines-append b';' (bool_text info.is_leader)
            (to_string_ℤ info.member_count
              ++ (b';' ∷ (to_string_ℤ info.error_code ++ serialize_members info.group_members)))
            (bool_text-free info.is_leader),
        getlines-append b';' (to_string_ℤ info.member_count)
            (to_string_ℤ info.error_code ++ serialize_members info.group_members)
            (to_string_ℤ-free b';' info.member_count refl refl),
        getlines-serialize_members (to_string_ℤ info.error_code) info.group_members
            (to_string_ℤ-free b';' info.error_code refl refl) (to_string_ℤ-ne-nil info.error_code)
            a,
      )
      refl

-- A group's answer that is sent is read back with the same id, leader, flag, count and code, and
-- with the same members by name and presence, when the numbers are `int` values and the id and the
-- names have no semicolon. A member's name may have commas.
pub deserialize-serialize_to_send :
    (now : ℕ) (info : GroupInfo)
    → NoSeparator info.group_id
    → NoSeparator info.leader_name
    → AllNoSeparator info.group_members
    → IsInt info.member_count
    → IsInt info.error_code
    → deserialize now (serialize_to_send info)
      ≡ some (record info { group_members = map (received now) info.group_members })
unfolding deserialize deserialize_parts
deserialize-serialize_to_send now info f g a m e =
    rw
      (
        parts_of info f g a,
        deserialize_parts,
        stoi-to_string_ℤ info.member_count m,
        stoi-to_string_ℤ info.error_code e,
        map-deserialize_member now info.group_members,
        flag_read info.is_leader,
      )
      refl
