-- ===== src/Chat/CmdType.antt =====
-- `EChatCmdType` and its spelling on the wire.
use u_dara_chat.Base.{◌≡◌, refl, ◌≢◌, Text, codes, text_eq, text_eq_iff, arith, if◌then◌else◌}

pub data ChatCmdType : Type 0 where
  tell group raid zone channel group_invite group_join group_join_info group_disband
        group_disband_info group_kick :
      ChatCmdType
  group_kick_info group_info alive alive_info admin_status admin_groups admin_zones admin_channels
        admin_info admin_error no_type :
      ChatCmdType

abbrev pub chat_cmd_type_to_string : ChatCmdType → Text
chat_cmd_type_to_string tell = codes "Tell"
chat_cmd_type_to_string group = codes "Group"
chat_cmd_type_to_string raid = codes "Raid"
chat_cmd_type_to_string zone = codes "Zone"
chat_cmd_type_to_string channel = codes "Channel"
chat_cmd_type_to_string group_invite = codes "GroupInvite"
chat_cmd_type_to_string group_join = codes "GroupJoin"
chat_cmd_type_to_string group_join_info = codes "GroupJoinInfo"
chat_cmd_type_to_string group_disband = codes "GroupDisband"
chat_cmd_type_to_string group_disband_info = codes "GroupDisbandInfo"
chat_cmd_type_to_string group_kick = codes "GroupKick"
chat_cmd_type_to_string group_kick_info = codes "GroupKickInfo"
chat_cmd_type_to_string group_info = codes "GroupInfo"
chat_cmd_type_to_string alive = codes "Alive"
chat_cmd_type_to_string alive_info = codes "AliveInfo"
chat_cmd_type_to_string admin_status = codes "AdminStatus"
chat_cmd_type_to_string admin_groups = codes "AdminGroups"
chat_cmd_type_to_string admin_zones = codes "AdminZones"
chat_cmd_type_to_string admin_channels = codes "AdminChannels"
chat_cmd_type_to_string admin_info = codes "AdminInfo"
chat_cmd_type_to_string admin_error = codes "AdminError"
chat_cmd_type_to_string no_type = codes "None"

unfoldable pub chat_cmd_type_from_string : Text → ChatCmdType
chat_cmd_type_from_string str =
    if text_eq str (codes "Tell")
    then tell
    else if text_eq str (codes "Group")
    then group
    else if text_eq str (codes "Raid")
    then raid
    else if text_eq str (codes "Zone")
    then zone
    else if text_eq str (codes "Channel")
    then channel
    else if text_eq str (codes "GroupInvite")
    then group_invite
    else if text_eq str (codes "GroupJoin")
    then group_join
    else if text_eq str (codes "GroupJoinInfo")
    then group_join_info
    else if text_eq str (codes "GroupDisband")
    then group_disband
    else if text_eq str (codes "GroupDisbandInfo")
    then group_disband_info
    else if text_eq str (codes "GroupKick")
    then group_kick
    else if text_eq str (codes "GroupKickInfo")
    then group_kick_info
    else if text_eq str (codes "GroupInfo")
    then group_info
    else if text_eq str (codes "Alive")
    then alive
    else if text_eq str (codes "AliveInfo")
    then alive_info
    else if text_eq str (codes "AdminStatus")
    then admin_status
    else if text_eq str (codes "AdminGroups")
    then admin_groups
    else if text_eq str (codes "AdminZones")
    then admin_zones
    else if text_eq str (codes "AdminChannels")
    then admin_channels
    else if text_eq str (codes "AdminInfo")
    then admin_info
    else if text_eq str (codes "AdminError")
    then admin_error
    else if text_eq str (codes "None")
    then no_type
    else no_type

-- Every type is read back from its spelling.
pub chat_cmd_type_from_string-to_string :
    (t : ChatCmdType) → chat_cmd_type_from_string (chat_cmd_type_to_string t) ≡ t
unfolding chat_cmd_type_from_string text_eq
chat_cmd_type_from_string-to_string tell = refl
chat_cmd_type_from_string-to_string group = refl
chat_cmd_type_from_string-to_string raid = refl
chat_cmd_type_from_string-to_string zone = refl
chat_cmd_type_from_string-to_string channel = refl
chat_cmd_type_from_string-to_string group_invite = refl
chat_cmd_type_from_string-to_string group_join = refl
chat_cmd_type_from_string-to_string group_join_info = refl
chat_cmd_type_from_string-to_string group_disband = refl
chat_cmd_type_from_string-to_string group_disband_info = refl
chat_cmd_type_from_string-to_string group_kick = refl
chat_cmd_type_from_string-to_string group_kick_info = refl
chat_cmd_type_from_string-to_string group_info = refl
chat_cmd_type_from_string-to_string alive = refl
chat_cmd_type_from_string-to_string alive_info = refl
chat_cmd_type_from_string-to_string admin_status = refl
chat_cmd_type_from_string-to_string admin_groups = refl
chat_cmd_type_from_string-to_string admin_zones = refl
chat_cmd_type_from_string-to_string admin_channels = refl
chat_cmd_type_from_string-to_string admin_info = refl
chat_cmd_type_from_string-to_string admin_error = refl
chat_cmd_type_from_string-to_string no_type = refl

-- A text that is read as a type is the spelling of that type.
pub chat_cmd_type_to_string-from_string :
    (s : Text)
    → chat_cmd_type_from_string s ≢ no_type
    → chat_cmd_type_to_string (chat_cmd_type_from_string s) ≡ s
unfolding chat_cmd_type_from_string
chat_cmd_type_to_string-from_string s known = ground (
  arith,
  text_eq_iff s (codes "Tell"),
  text_eq_iff s (codes "Group"),
  text_eq_iff s (codes "Raid"),
  text_eq_iff s (codes "Zone"),
  text_eq_iff s (codes "Channel"),
  text_eq_iff s (codes "GroupInvite"),
  text_eq_iff s (codes "GroupJoin"),
  text_eq_iff s (codes "GroupJoinInfo"),
  text_eq_iff s (codes "GroupDisband"),
  text_eq_iff s (codes "GroupDisbandInfo"),
  text_eq_iff s (codes "GroupKick"),
  text_eq_iff s (codes "GroupKickInfo"),
  text_eq_iff s (codes "GroupInfo"),
  text_eq_iff s (codes "Alive"),
  text_eq_iff s (codes "AliveInfo"),
  text_eq_iff s (codes "AdminStatus"),
  text_eq_iff s (codes "AdminGroups"),
  text_eq_iff s (codes "AdminZones"),
  text_eq_iff s (codes "AdminChannels"),
  text_eq_iff s (codes "AdminInfo"),
  text_eq_iff s (codes "AdminError"),
  text_eq_iff s (codes "None"),
)
