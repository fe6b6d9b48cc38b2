-- ===== src/Tests/Groups.antt =====
-- The group container on concrete histories.
use u_dara_chat.Base.{
  sym, ◌==◌, map, ◌∷◌, ◌∙◌, ◌<◌, arith, ℕ, keep_if, ◌≡◌, refl, ◌≢◌, ◌⊎◌, inl, true, false, [], some,
  Text, codes, text_eq, any_of, count_if,
}
use u_dara_chat.Group.Container.{
  group_start_group, group_join, group_kick_member, group_disband, group_invite, erase_named,
}
use u_dara_chat.Group.Count.{size}
use u_dara_chat.Group.Info.{collect_members, find_group_id, get_group_info}
use u_dara_chat.Group.Inviting.{InviteAnswer, group_invite_outcome, remove_invite_other_case}
use u_dara_chat.Group.Invites.{
  lower, c_str, same_ignoring_case, add_invite, remove_invite, check_has_invited,
}
use u_dara_chat.Group.Joining.{JoinRefused, Joined, group_join_outcome}
use u_dara_chat.Group.Leaving.{
  Leads, is_leader-Leads, KickRefused, Kicked, group_kick_member_outcome, first_member,
  group_disband_succession,
}
use u_dara_chat.Group.NewId.{hex_run, hex_digit, get_new_group_id}
use u_dara_chat.Group.Reach.{start, join, Reach, here, next, Reach-WellFormed}
use u_dara_chat.Group.Steps.{IsWellFormed, group_start_group-WellFormed}
use u_dara_chat.Group.Rooms.{History, operations, rooms}
use u_dara_chat.Group.Spec.{Reach-History}
use u_dara_chat.Group.Wire.{serialize_to_send, deserialize}
use u_dara_chat.Group.WireRoundTrip.{
  AllNoSeparator, nobody as no_member, member, received, deserialize-serialize_to_send,
}
use u_dara_chat.Base.Int.{pos}
use u_dara_chat.Group.Switching.{group_disband-group_join}
use u_dara_chat.Group.Types.{
  GroupMember, GroupInfo, GroupContainer, new_group_member, new_group_container,
}

-- The draws of the random engine.
abbrev zeros : ℕ → ℕ
zeros n = 0

abbrev id : Text
id = get_new_group_id zeros 8

abbrev ann : Text
ann = codes "Ann"

abbrev bob : Text
bob = codes "Bob"

abbrev cid : Text
cid = codes "Cid"

-- Ann starts a group and Bob joins it.
abbrev alone : GroupContainer
alone = (group_start_group 10 id new_group_container ann).0

abbrev party : GroupContainer
party = (group_join 20 alone bob ann).0

nobody : size id new_group_container.my_groups ≡ 0
unfolding count_if
nobody = refl

party-Reach : Reach party
party-Reach =
    next (next here (start 10 zeros 8 new_group_container ann nobody)) (join 20 alone bob ann)

party-WellFormed : IsWellFormed party
party-WellFormed = Reach-WellFormed party-Reach

Reach-History_example : History (operations party-Reach) (rooms party)
Reach-History_example = Reach-History party-Reach

Reach-WellFormed_example : IsWellFormed party
Reach-WellFormed_example = Reach-WellFormed party-Reach

group_join_outcome_example :
    (JoinRefused party cid ann (group_join 30 party cid ann).1
      × ((group_join 30 party cid ann).0 ≡ party))
    ⊎ Joined party cid ann (group_join 30 party cid ann)
group_join_outcome_example = group_join_outcome 30 party cid ann party-WellFormed

group_kick_member_outcome_example :
    (KickRefused party bob ann (group_kick_member party bob ann).1
      × ((group_kick_member party bob ann).0 ≡ party))
    ⊎ Kicked party bob ann (group_kick_member party bob ann)
group_kick_member_outcome_example = group_kick_member_outcome party bob ann party-WellFormed

ann_leads : (get_group_info party ann).is_leader ≡ true
unfolding get_group_info group_join group_start_group get_new_group_id find_group_id text_eq
    collect_members hex_run hex_digit
ann_leads = refl

ann-Leads : Leads party ann
ann-Leads = (is_leader-Leads party ann party-WellFormed).0 ann_leads

abbrev bob_member : GroupMember
bob_member = record {
  name = bob;
  is_leader = false;
  is_online = true;
  group_id = id;
  zone = [];
  health = [];
  store_time = 20;
}

bob_first :
    first_member (find_group_id ann party.my_groups) (erase_named ann party.my_groups)
    ≡ some bob_member
unfolding group_join group_start_group get_group_info find_group_id get_new_group_id keep_if text_eq
    collect_members hex_run hex_digit
bob_first = refl

group_disband_succession_example :
    Leads (group_disband party ann).0 bob
    × ((k : Text)
        → k ≢ ann
        → find_group_id k party.my_groups ≡ find_group_id ann party.my_groups
        → (get_group_info (group_disband party ann).0 k).leader_name ≡ bob)
group_disband_succession_example =
    group_disband_succession party ann bob_member party-WellFormed ann-Leads bob_first

group_invite_outcome_example : InviteAnswer party cid ann (group_invite party cid ann)
group_invite_outcome_example = group_invite_outcome party cid ann party-WellFormed

abbrev other_id : Text
other_id = codes "group_1"

other_id-fresh : size other_id party.my_groups ≡ 0
unfolding group_join group_start_group get_group_info find_group_id get_new_group_id count_if
    text_eq collect_members hex_run hex_digit
other_id-fresh = refl

abbrev ann_lower : Text
ann_lower = codes "ann"

abbrev invited : GroupContainer
invited = add_invite 30 party ann cid

lower_ann : same_ignoring_case ann_lower ann ≡ true
unfolding same_ignoring_case text_eq lower c_str
lower_ann = refl

cid-cid : same_ignoring_case cid cid ≡ true
unfolding same_ignoring_case text_eq lower c_str
cid-cid = refl

remove_invite_other_case_example :
    check_has_invited (remove_invite (add_invite 30 party ann_lower cid) ann cid) ann cid ≡ true
remove_invite_other_case_example =
    remove_invite_other_case 30 party ann cid ann_lower cid lower_ann cid-cid (inl λ e. cc)

-- Cid is alone in a second group.
abbrev pair : GroupContainer
pair = (group_start_group 30 other_id party cid).0

pair-WellFormed : IsWellFormed pair
pair-WellFormed =
    group_start_group-WellFormed 30 other_id party cid (λ e. cc) other_id-fresh party-WellFormed

ann_in_pair : find_group_id ann pair.my_groups ≡ codes "group_00000000-0000-4000-8000-000000000000"
unfolding group_join group_start_group get_group_info find_group_id get_new_group_id text_eq
    collect_members hex_run hex_digit
ann_in_pair = refl

cid_in_pair : find_group_id cid pair.my_groups ≡ other_id
unfolding group_join group_start_group get_group_info find_group_id get_new_group_id text_eq
    collect_members hex_run hex_digit
cid_in_pair = refl

room_in_pair : size (find_group_id ann pair.my_groups) pair.my_groups < 6
unfolding group_join group_start_group get_group_info find_group_id get_new_group_id count_if
    text_eq collect_members hex_run hex_digit
room_in_pair = omega arith

group_disband-group_join_example :
    find_group_id cid (group_join 40 (group_disband pair cid).0 cid ann).0.my_groups
    ≡ find_group_id ann pair.my_groups
group_disband-group_join_example =
    group_disband-group_join 40 pair cid ann pair-WellFormed (λ e. cc)
      (λ e. cc (sym ann_in_pair ∙ e)) (λ e. cc (sym ann_in_pair ∙ e ∙ cid_in_pair)) room_in_pair

-- A full answer for a group of two, of whom Bob is away.
abbrev answer : GroupInfo
answer = record {
  group_id = codes "group_1";
  leader_name = ann;
  group_members =
      record (new_group_member 5) {
        name = ann;
        group_id = codes "group_1";
        is_leader = true;
        is_online = true;
      }
      ∷ record (new_group_member 5) {
        name = codes "Bob,b";
        group_id = codes "group_1";
        is_online = false;
      }
      ∷ [];
  is_leader = true;
  member_count = pos 2;
  error_code = pos 0;
}

members_free : AllNoSeparator answer.group_members
unfolding any_of
members_free = member refl (member refl no_member)

id_free : any_of (λ d. d == b';') answer.group_id ≡ false
unfolding any_of
id_free = refl

ann_free : any_of (λ d. d == b';') ann ≡ false
unfolding any_of
ann_free = refl

deserialize-serialize_to_send_example :
    deserialize 9 (serialize_to_send answer)
    ≡ some (record answer { group_members = map (received 9) answer.group_members })
deserialize-serialize_to_send_example =
    deserialize-serialize_to_send 9 answer id_free ann_free members_free (omega arith) (omega arith)
