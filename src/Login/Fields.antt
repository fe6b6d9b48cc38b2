-- ===== src/Login/Fields.antt =====
-- The fields of a login frame: `key=value` parts put into a map.
use u_dara_chat.Base.{
  zero, suc, ◌+◌, List, [], ◌∷◌, Option, none, some, Text, text_eq, take, drop, if◌then◌else◌,
}
use u_dara_chat.Chat.Message.{find_first}

-- `std::map<std::string, std::string>`, as its entries.
abbrev pub Fields : Type 0
Fields = List (Text × Text)

unfoldable pub field : Text → Fields → Option Text
field k [] = none
field k ((j, v) ∷ m) = if text_eq j k then some v else field k m

-- `emplace`, which fails on a key that is there.
unfoldable pub emplace : Text → Text → Fields → Option Fields
emplace k v m = elim (field k m) [ none ↦ some ((k, v) ∷ m) | some _ ↦ none ]

-- One round of the loop over the parts.
unfoldable pub add_part : Text → Fields → Option Fields
add_part part m = elim (find_first b'=' part) [
  | none ↦ none
  | some zero ↦ none
  | some (suc i) ↦ emplace (take (suc i) part) (drop (suc i + 1) part) m
]

unfoldable pub add_parts : List Text → Fields → Option Fields
add_parts [] m = some m
add_parts (p ∷ ps) m = elim (add_part p m) [ none ↦ none | some m' ↦ add_parts ps m' ]
