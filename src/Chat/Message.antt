-- ===== src/Chat/Message.antt =====
-- `FDaraChatMsg`, its `Serialize`, `TryParseMessage` and the notifications made from a message.
use u_dara_chat.Base.{
  ℕ, suc, ◌+◌, ◌-◌, Bool, true, false, [], ◌∷◌, ◌++◌, Option, none, some, Text, codes, drop, take,
  ◌==◌, if◌then◌else◌,
}
use u_dara_chat.Chat.CmdType.{
  ChatCmdType, no_type, group_join_info, group_disband_info, group_kick_info,
  chat_cmd_type_to_string, chat_cmd_type_from_string,
}

pub record DaraChatMsg : Type 0 where
  pub kind : ChatCmdType
  pub sender : Text
  pub recipient : Text
  pub message : Text

abbrev pub new_chat_msg : DaraChatMsg
new_chat_msg = record { kind = no_type; sender = []; recipient = []; message = [] }

-- `FDaraChatMsg::Serialize`.
unfoldable pub serialize : DaraChatMsg → Text
serialize m =
    chat_cmd_type_to_string m.kind
    ++ (b':' ∷ (m.sender ++ (b':' ∷ (m.recipient ++ (b':' ∷ m.message)))))

-- `s.find(c)`: the first position of a byte.
unfoldable pub find_first : ℕ → Text → Option ℕ
find_first c [] = none
find_first c (d ∷ s) =
    let rest = find_first c s in
    if d == c then some 0 else elim rest [ none ↦ none | some i ↦ some (suc i) ]

-- `s.find(c, from)`.
unfoldable pub find_from : ℕ → Text → ℕ → Option ℕ
find_from c s from = elim (find_first c (drop from s)) [ none ↦ none | some i ↦ some (from + i) ]

-- `s.substr(from, count)`, for `from` within the text.
abbrev pub substr : Text → ℕ → ℕ → Text
substr s from count = take count (drop from s)

-- What `TryParseMessage` returns, and leaves in its two output parameters.
pub record Parsed : Type 0 where
  pub ok : Bool
  pub output : DaraChatMsg
  pub error : Text

abbrev pub rejected : Text → Parsed
rejected error = record { ok = false; output = new_chat_msg; error = error }

-- `parsed.Type == EChatCmdType::None`.
abbrev pub is_none : ChatCmdType → Bool
is_none no_type = true
is_none _ = false

-- A search that fails leaves `npos`, which the later searches pass on to the one test of it.
abbrev pub or_reject : Option ℕ → (ℕ → Parsed) → Parsed
or_reject none f = rejected (codes "Expected Type:Sender:Recipient:Message")
or_reject (some i) f = f i

unfoldable pub parse_fields : Text → ℕ → ℕ → ℕ → Parsed
parse_fields input first second third =
    let kind = chat_cmd_type_from_string (substr input 0 first) in
    if is_none kind then rejected (codes "Unknown or inactive message type") else record {
      ok = true;
      output = record {
        kind = kind;
        sender = substr input (first + 1) (second - first - 1);
        recipient = substr input (second + 1) (third - second - 1);
        message = drop (third + 1) input;
      };
      error = [];
    }

unfoldable pub try_parse_message : Text → Parsed
try_parse_message input = or_reject (find_from b':' input 0) λ first.
    or_reject (find_from b':' input (first + 1)) λ second.
      or_reject (find_from b':' input (second + 1)) λ third. parse_fields input first second third

unfoldable pub get_group_join_info_message : DaraChatMsg → Text
get_group_join_info_message m =
    serialize (record m { kind = group_join_info; message = codes "joined the group" })

unfoldable pub get_group_disband_info_message : DaraChatMsg → Text
get_group_disband_info_message m =
    serialize (record m { kind = group_disband_info; message = codes "left the group" })

unfoldable pub get_group_kick_info_message : DaraChatMsg → Text
get_group_kick_info_message m = serialize (record m { kind = group_kick_info })
