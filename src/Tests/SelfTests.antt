-- ===== src/Tests/SelfTests.antt =====
-- The container's own tests, from an empty container.
use u_dara_chat.Base.Decimal.{digits_onto, to_string}
use u_dara_chat.Base.{◌≡◌, refl, true, [], ◌∷◌, Text, codes, any_of, text_eq, count_if, keep_if}
use u_dara_chat.Group.Container.{group_start_group, group_join, group_kick_member}
use u_dara_chat.Group.Count.{size}
use u_dara_chat.Group.Info.{find_group_id, get_group_info, collect_members}
use u_dara_chat.Group.SelfTest.{member_names, join_all, run_group_kick_tests}
use u_dara_chat.Group.SelfTestPasses.{AllAlone, no_name, one_name}
use u_dara_chat.Group.Types.{new_group_container}

abbrev id : Text
id = codes "group_1"

names_alone :
    AllAlone new_group_container (codes "Leader1" ∷ codes "UnknownLeader" ∷ member_names 2 5)
unfolding member_names to_string digits_onto any_of text_eq find_group_id
names_alone = one_name refl refl (
    one_name refl refl (
      one_name refl refl (
        one_name refl refl (one_name refl refl (one_name refl refl (one_name refl refl no_name))))))

id-fresh : size id new_group_container.my_groups ≡ 0
unfolding count_if
id-fresh = refl

kick_tests_pass :
    (run_group_kick_tests 10 id new_group_container).1
    ≡ true ∷ true ∷ true ∷ true ∷ true ∷ true ∷ true ∷ true ∷ true ∷ true ∷ []
unfolding run_group_kick_tests join_all group_start_group group_join group_kick_member
    get_group_info collect_members find_group_id keep_if text_eq any_of
kick_tests_pass = refl
