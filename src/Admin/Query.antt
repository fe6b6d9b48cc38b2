-- ===== src/Admin/Query.antt =====
-- `dara::AdminSnapshot`, `IsAdminQuery`, `AdminError` and `AnswerAdminQuery`. The JSON library is
-- not part of the repository's own code: its values are the data type below, in the shape that the
-- code builds, and its printer is a parameter; `double` is a parameter with the conversion from a
-- size.
use u_dara_chat.Base.{
  ℕ, Bool, true, false, not, ◌||◌, List, [], ◌∷◌, map, Text, codes, is_empty, count_if, length,
  any_of, if◌then◌else◌,
}
use u_dara_chat.Chat.CmdType.{
  ChatCmdType, admin_status, admin_groups, admin_zones, admin_channels, admin_info, admin_error,
}
use u_dara_chat.Chat.Message.{DaraChatMsg}
use u_dara_chat.Group.Types.{GroupMember, GroupInfo}

mutual
  pub data Json (Double : Type 0) : Type 0 where
    string : Text → Json Double
    boolean : Bool → Json Double
    number : Double → Json Double
    array : Items Double → Json Double
    object : Entries Double → Json Double

  pub data Items (Double : Type 0) : Type 0 where
    nil : Items Double
    cons : Json Double → Items Double → Items Double

  pub data Entries (Double : Type 0) : Type 0 where
    end : Entries Double
    entry : Text → Json Double → Entries Double → Entries Double

-- The parts of picojson and of the machine that the code uses.
pub record JsonLibrary : Type 1 where
  pub Double : Type 0
  pub of_size : ℕ → Double
  pub print : Json Double → Text

pub record AdminSnapshot (Double : Type 0) : Type 0 where
  pub uptime_seconds : Double
  pub connected_clients : ℕ
  pub groups : List GroupInfo
  pub zones : List (Text × ℕ)
  pub channels : List (Text × ℕ)

unfoldable pub is_admin_query : ChatCmdType → Bool
is_admin_query admin_status = true
is_admin_query admin_groups = true
is_admin_query admin_zones = true
is_admin_query admin_channels = true
is_admin_query _ = false

module _ (json : JsonLibrary) where
  open json use {Double, of_size, print}

  abbrev server_reply : ChatCmdType → Text → Text → DaraChatMsg
  server_reply kind name message = record {
    kind = kind;
    sender = codes "Server";
    recipient = name;
    message = message;
  }

  unfoldable pub admin_error_msg : Text → Text → Text → DaraChatMsg
  admin_error_msg name code message = server_reply admin_error name (
      print (
        object (entry (codes "code") (string code) (entry (codes "message") (string message) end))))

  abbrev items : List (Json Double) → Items Double
  items [] = nil
  items (j ∷ js) = cons j (items js)

  abbrev member_json : GroupMember → Json Double
  member_json m =
      object
        (entry (codes "name") (string m.name) (entry (codes "online") (boolean m.is_online) end))

  abbrev group_json : GroupInfo → Json Double
  group_json g = object (
      entry (codes "id") (string g.group_id) (
        entry (codes "leader") (string g.leader_name)
          (entry (codes "members") (array (items (map member_json g.group_members))) end)))

  abbrev counted_json : Text → Text × ℕ → Json Double
  counted_json label (name, n) =
      object (entry (codes "name") (string name) (entry label (number (of_size n)) end))

  abbrev has_online : GroupInfo → Bool
  has_online g = any_of (λ (m : GroupMember). m.is_online) g.group_members

  -- The object `body`, whose keys `std::map` keeps in the order of their bytes.
  unfoldable pub admin_body : ChatCmdType → AdminSnapshot Double → Entries Double
  admin_body admin_status state =
      entry (codes "connectedClients") (number (of_size state.connected_clients)) (
        entry (codes "onlineGroups") (number (of_size (count_if has_online state.groups))) (
          entry (codes "query") (string (codes "status")) (
            entry (codes "totalGroups") (number (of_size (length state.groups)))
              (entry (codes "uptimeSeconds") (number state.uptime_seconds) end))))
  admin_body admin_groups state =
      entry (codes "groups") (array (items (map group_json state.groups)))
        (entry (codes "query") (string (codes "groups")) end)
  admin_body admin_zones state = entry (codes "query") (string (codes "zones")) (
      entry (codes "zones")
        (array (items (map (counted_json (codes "connectedClients")) state.zones))) end)
  admin_body _ state =
      entry (codes "channels")
        (array (items (map (counted_json (codes "subscribers")) state.channels)))
        (entry (codes "query") (string (codes "channels")) end)

  -- `collect` is called only where its result is used.
  unfoldable pub answer_admin_query :
      DaraChatMsg → Bool → (Unit {0} → AdminSnapshot Double) → DaraChatMsg
  answer_admin_query request is_admin collect =
      if not is_admin
      then admin_error_msg request.sender (codes "Forbidden")
          (codes "Administrator access required")
      else if not (is_admin_query request.kind)
          || (not (is_empty request.recipient) || not (is_empty request.message))
      then admin_error_msg request.sender (codes "InvalidQuery")
          (codes "Expected an admin query with empty recipient and message")
      else server_reply admin_info request.sender
          (print (object (admin_body request.kind (collect tt))))
