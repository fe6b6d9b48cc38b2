-- ===== src/Group/Types.antt =====
-- The data of GroupContainer.h and the error codes of GroupContainer.cpp. Times are seconds.
use u_dara_chat.Base.Int.{ℤ, pos, negsuc}
use u_dara_chat.Base.{ℕ, Bool, false, List, [], Text, codes}

pub record GroupMember : Type 0 where
  pub name : Text
  pub is_leader : Bool
  pub is_online : Bool
  pub group_id : Text
  pub zone : Text
  pub health : Text
  pub store_time : ℕ

pub record GroupInviteData : Type 0 where
  pub leader_name : Text
  pub member_name : Text
  pub store_time : ℕ

pub record GroupInfo : Type 0 where
  pub group_id : Text
  pub leader_name : Text
  pub is_leader : Bool
  pub member_count : ℤ
  pub error_code : ℤ
  pub group_members : List GroupMember

pub record GroupContainer : Type 0 where
  pub my_groups : List GroupMember
  pub my_invites : List GroupInviteData
  pub my_debug_level : ℤ

-- `MyGroupPrefix` and `MyMaxGroupMembers`, which nothing assigns.
abbrev pub my_group_prefix : Text
my_group_prefix = codes "group_"

abbrev pub my_max_group_members : ℕ
my_max_group_members = 6

-- The constructors: `now` is `std::time(nullptr)`.
abbrev pub new_group_member : ℕ → GroupMember
new_group_member now = record {
  name = [];
  is_leader = false;
  is_online = false;
  group_id = [];
  zone = [];
  health = [];
  store_time = now;
}

abbrev pub new_group_info : GroupInfo
new_group_info = record {
  group_id = [];
  leader_name = [];
  is_leader = false;
  member_count = pos 0;
  error_code = pos 0;
  group_members = [];
}

abbrev pub new_group_container : GroupContainer
new_group_container = record { my_groups = []; my_invites = []; my_debug_level = pos 0 }

abbrev pub group_success : ℤ
group_success = pos 1

abbrev pub group_is_in_another_group : ℤ
group_is_in_another_group = negsuc 1

abbrev pub group_is_not_leader : ℤ
group_is_not_leader = negsuc 3

abbrev pub group_is_not_member : ℤ
group_is_not_member = negsuc 4

abbrev pub group_error_full : ℤ
group_error_full = negsuc 5

abbrev pub group_is_not_member_of_any_group : ℤ
group_is_not_member_of_any_group = negsuc 6

abbrev pub group_is_already_in_group : ℤ
group_is_already_in_group = negsuc 7

abbrev pub group_leader_empty : ℤ
group_leader_empty = negsuc 9

abbrev pub group_member_already_in_group : ℤ
group_member_already_in_group = negsuc 10

abbrev pub group_leader_has_no_group : ℤ
group_leader_has_no_group = negsuc 11

abbrev pub group_cannot_kick_self : ℤ
group_cannot_kick_self = negsuc 12
