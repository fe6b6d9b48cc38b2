-- ===== src/Group/Wire.antt =====
-- `GroupInfo::SerializeToSend` and `GroupInfo::Deserialize`.
use u_dara_chat.Base.Decimal.{to_string_ℤ, stoi}
use u_dara_chat.Base.{
  ℕ, suc, ◌+◌, Bool, ◌||◌, List, [], ◌∷◌, ◌++◌, map, Option, none, some, Text, codes, text_eq,
  getlines, drop, take, ◌==◌, if◌then◌else◌,
}
use u_dara_chat.Group.Types.{GroupMember, GroupInfo, new_group_member, new_group_info}

abbrev pub bool_text : Bool → Text
bool_text b = if b then codes "1" else codes "0"

-- The loop over the members.
unfoldable pub serialize_members : List GroupMember → Text
serialize_members [] = []
serialize_members (m ∷ ms) =
    b';' ∷ (m.name ++ (b',' ∷ (bool_text m.is_online ++ serialize_members ms)))

unfoldable pub serialize_to_send : GroupInfo → Text
serialize_to_send info =
    info.group_id
    ++ (b';'
        ∷ (info.leader_name
            ++ (b';'
                ∷ (bool_text info.is_leader
                    ++ (b';'
                        ∷ (to_string_ℤ info.member_count
                            ++ (b';'
                                ∷ (to_string_ℤ info.error_code
                                    ++ serialize_members info.group_members))))))))

-- `rfind(c)`.
unfoldable pub find_last : ℕ → Text → Option ℕ
find_last c [] = none
find_last c (d ∷ s) = elim (find_last c s) [
  | none ↦ (if d == c then some 0 else none)
  | some i ↦ some (suc i)
]

-- One round of the loop over the parts behind the fifth; `now` is the clock of the constructor.
unfoldable pub deserialize_member : ℕ → Text → GroupMember
deserialize_member now part = elim (find_last b',' part) [
  | none ↦ record (new_group_member now) { name = part }
  | some sep ↦
      let flag = drop (sep + 1) part in
      if text_eq flag (codes "0") || text_eq flag (codes "1")
      then record (new_group_member now) {
        name = take sep part;
        is_online = text_eq flag (codes "1");
      }
      else record (new_group_member now) { name = part }
]

-- `none` where `std::stoi` throws.
unfoldable pub deserialize_parts : ℕ → List Text → Option GroupInfo
deserialize_parts now (id ∷ leader ∷ flag ∷ count ∷ code ∷ rest) = elim (stoi count) [
  | none ↦ none
  | some n ↦ elim (stoi code) [
    | none ↦ none
    | some e ↦ some (record {
      group_id = id;
      leader_name = leader;
      is_leader = text_eq flag (codes "1");
      member_count = n;
      error_code = e;
      group_members = map (deserialize_member now) rest;
    })
  ]
]
deserialize_parts now short = some new_group_info

unfoldable pub deserialize : ℕ → Text → Option GroupInfo
deserialize now msg = deserialize_parts now (getlines b';' msg)
