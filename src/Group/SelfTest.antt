-- ===== src/Group/SelfTest.antt =====
-- `RunGroupTests` and `RunGroupKickTests`: what the container's own tests do, and which of their checks
-- pass. What they print is left out; the ids are what the starts of groups draw.
use u_dara_chat.Base.Decimal.{to_string}
use u_dara_chat.Base.Int.{pos, eq_ℤ}
use u_dara_chat.Base.{
  ℕ, zero, suc, Bool, false, not, List, [], ◌∷◌, ◌++◌, Text, codes, if◌then◌else◌,
}
use u_dara_chat.Group.Container.{group_start_group, group_join, group_kick_member}
use u_dara_chat.Group.Types.{GroupInfo, GroupContainer}

abbrev pub has_failed : GroupInfo → Bool
has_failed info = not (eq_ℤ info.error_code (pos 0))

-- The names of the loop `for (int i = first; ...; ++i)` over a number of rounds.
unfoldable pub member_names : ℕ → ℕ → List Text
member_names first zero = []
member_names first (suc rounds) =
    (codes "Member" ++ to_string first) ∷ member_names (suc first) rounds

-- The joins of such a loop, with whether each was a success.
unfoldable pub join_all : ℕ → Text → List Text → GroupContainer → GroupContainer × List Bool
join_all now leader [] c = (c, [])
join_all now leader (m ∷ ms) c =
    let (d, info) = group_join now c m leader in
    let (e, checks) = join_all now leader ms d in (e, not (has_failed info) ∷ checks)

unfoldable pub run_group_tests : ℕ → Text → Text → GroupContainer → GroupContainer × List Bool
run_group_tests now id second_id c =
    let leader = codes "Leader1" in
    let (started, _) = group_start_group now id c leader in
    let (filled, _) = join_all now leader (member_names 2 5) started in
    let (c1, overflow) = group_join now filled (codes "Member7") leader in
    let (c2, duplicate) = group_join now c1 (codes "Member3") leader in
    let (c3, no_group) = group_join now c2 (codes "StrayMember") (codes "UnknownLeader") in
    let (c4, second_start) = group_start_group now second_id c3 (codes "Member4") in
    (
      c4,
      has_failed overflow
          ∷ has_failed duplicate
          ∷ has_failed no_group
          ∷ has_failed second_start
          ∷ [],
    )

-- A start that fails ends the tests with an error.
unfoldable pub run_group_kick_tests : ℕ → Text → GroupContainer → GroupContainer × List Bool
run_group_kick_tests now id c =
    let leader = codes "LeaderKick" in
    let (started, start_info) = group_start_group now id c leader in
    let (filled, joins) =
      join_all now leader
        (codes "Kickee1" ∷ codes "Kickee2" ∷ codes "Kickee3" ∷ codes "Kickee4" ∷ []) started in
    let (full, _) = group_join now filled (codes "Kickee5") leader in
    let (c1, kick) = group_kick_member full (codes "Kickee2") leader in
    let (c2, again) = group_kick_member c1 (codes "Kickee2") leader in
    let (c3, non_member) = group_kick_member c2 (codes "RandomGuy") leader in
    let (c4, kick_leader) = group_kick_member c3 leader leader in
    let (c5, from_ghost) = group_kick_member c4 (codes "Nobody") (codes "GhostLeader") in
    let (c6, by_member) = group_kick_member c5 leader (codes "Kickee3") in
    if has_failed start_info then (started, false ∷ []) else (
      c6,
      joins
          ++ (not (has_failed kick)
              ∷ has_failed again
              ∷ has_failed non_member
              ∷ has_failed kick_leader
              ∷ has_failed from_ghost
              ∷ has_failed by_member
              ∷ []),
    )

-- `RunTests`, up to its first return.
unfoldable pub run_tests :
    ℕ → Text → Text → Text → Text → GroupContainer → GroupContainer × List Bool
run_tests now id1 id2 id3 id4 c =
    let (c1, _) = group_start_group now id1 c (codes "Tirio") in
    let (c2, _) = group_join now c1 (codes "Trula") (codes "Tirio") in
    let (c3, checks) = run_group_tests now id2 id3 c2 in
    let (c4, kick_checks) = run_group_kick_tests now id4 c3 in (c4, checks ++ kick_checks)
