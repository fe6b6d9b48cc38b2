-- ===== src/Group/SelfTestPasses.antt =====
-- The checks of `RunGroupTests` pass.
use u_dara_chat.Base.Int.{pos}
use u_dara_chat.Base.Decimal.{digits_onto, to_string}
use u_dara_chat.Base.{
  ℕ, suc, ◌+◌, ◌≤◌, ◌<◌, ◌≡◌, refl, sym, ap, ◌∙◌, ◌≢◌, true, false, not, List, [], ◌∷◌, length,
  Text, codes, text_eq, text_eq_iff, text_cases, is_empty, not_empty, any_of, arith, if◌then◌else◌,
  inl, inr,
}
use u_dara_chat.Group.Answers.{get_group_info-group_id, get_group_info-member_count}
use u_dara_chat.Group.Container.{group_start_group, group_join}
use u_dara_chat.Group.Count.{size}
use u_dara_chat.Group.Info.{get_group_info}
use u_dara_chat.Group.Joining.{Joined, group_start_group_outcome, group_join_outcome}
use u_dara_chat.Group.Names.{
  refused-code, group_of, group_of-group_join_other, group_of-group_start_group,
}
use u_dara_chat.Group.SelfTest.{has_failed, member_names, join_all, run_group_tests}
use u_dara_chat.Group.Steps.{IsWellFormed, group_start_group-WellFormed, group_join-WellFormed}
use u_dara_chat.Group.Types.{GroupInfo, GroupContainer, my_max_group_members}

-- All different, and none in a group.
pub data AllAlone (c : GroupContainer) : List Text → Type 0 where
  no_name : AllAlone c []
  one_name :
      {n : Text} {ns : List Text}
      → group_of c n ≡ []
      → any_of (text_eq n) ns ≡ false
      → AllAlone c ns
      → AllAlone c (n ∷ ns)

-- `k` members in the group `g` of the leader.
record HasRoom (l g : Text) (k : ℕ) (c : GroupContainer) : Type 0 where
  sound : IsWellFormed c
  led : group_of c l ≡ g
  filled : size g c.my_groups ≡ k

module _ (now : ℕ) (l g : Text) (some_group : g ≢ []) (named : l ≢ []) where
  join-HasRoom :
      (k : ℕ) (c : GroupContainer) (m : Text)
      → HasRoom l g k c
      → k < my_max_group_members
      → group_of c m ≡ []
      → HasRoom l g (suc k) (group_join now c m l).0 × (group_of (group_join now c m l).0 m ≡ g)
  join-HasRoom k c m h room alone = elim (group_join_outcome now c m l h.sound) [
    | inl (inl (nameless, _), _) ↦ absurd (named nameless)
    | inl (inr (inl (_, none_of, _)), _) ↦ absurd (some_group (sym h.led ∙ none_of))
    | inl (inr (inr (inl (_, full, _))), _) ↦
        absurd (omega (arith, full, room, h.filled, ap (λ x. size x c.my_groups) h.led))
    | inl (inr (inr (inr (_, _, elsewhere, _))), _) ↦ absurd (elsewhere alone)
    | inr (_, _, _, own, grown, _, _) ↦ (
      record {
        sound = group_join-WellFormed now c m l h.sound;
        led =
            group_of-group_join_other now c m l l
              (λ e. some_group (sym h.led ∙ ap (group_of c) e ∙ alone))
            ∙ h.led;
        filled =
            ap (λ x. size x (group_join now c m l).0.my_groups) (sym h.led)
            ∙ grown
            ∙ ap suc (ap (λ x. size x c.my_groups) h.led ∙ h.filled);
      },
      own ∙ h.led,
    )
  ]

  still-AllAlone :
      (c : GroupContainer) (m : Text) (ns : List Text)
      → any_of (text_eq m) ns ≡ false
      → AllAlone c ns
      → AllAlone (group_join now c m l).0 ns
  unfolding any_of
  still-AllAlone c m [] f no_name = no_name
  still-AllAlone c m (n ∷ ns) f (one_name alone other rest) =
      let ne : n ≢ m = λ e. ground (arith, text_eq_iff m n, sym e) in
      one_name (group_of-group_join_other now c m l n ne ∙ alone) other
        (still-AllAlone c m ns (ground arith) rest)

  join_all-HasRoom :
      (ns : List Text) (k total : ℕ) (c : GroupContainer)
      → HasRoom l g k c
      → k + length ns ≡ total
      → total ≤ my_max_group_members
      → AllAlone c ns
      → HasRoom l g total (join_all now l ns c).0
        × ((m : Text)
            → group_of (join_all now l ns c).0 m
              ≡ (if any_of (text_eq m) ns then g else group_of c m))
  unfolding join_all any_of
  join_all-HasRoom [] k total c h sum room no_name =
      (record { sound = h.sound; led = h.led; filled = omega (arith, h.filled, sum) }, λ m. refl)
  join_all-HasRoom (n ∷ ns) k total c h sum room (one_name alone other rest) =
      let (grown, own) = join-HasRoom k c n h (omega (arith, sum, room)) alone in
      let d : GroupContainer = (group_join now c n l).0 in
      let (full, members) =
        join_all-HasRoom ns (suc k) total d grown (omega (arith, sum)) room
          (still-AllAlone c n ns other rest) in
      (
        full,
        λ m. members m ∙ elim (text_cases m n) [
          | inl e ↦ ground (arith, text_eq_iff m n, other, own, ap (group_of d) e)
          | inr ne ↦ ground (arith, text_eq_iff m n, group_of-group_join_other now c n l m ne)
        ],
      )

-- A join that cannot be a success fails and changes nothing.
join-refused :
    (now : ℕ) (c : GroupContainer) (m l : Text)
    → IsWellFormed c
    → ¬ Joined c m l (group_join now c m l)
    → (has_failed (group_join now c m l).1 ≡ true) × ((group_join now c m l).0 ≡ c)
join-refused now c m l v not_joined = elim (group_join_outcome now c m l v) [
  | inl (refused, same) ↦ (ap not (refused-code c m l (group_join now c m l).1 refused), same)
  | inr joined ↦ absurd (not_joined joined)
]

start-AllAlone :
    (now : ℕ) (id : Text) (c : GroupContainer) (l : Text) (ns : List Text)
    → IsWellFormed c
    → group_of c l ≡ []
    → any_of (text_eq l) ns ≡ false
    → AllAlone c ns
    → AllAlone (group_start_group now id c l).0 ns
unfolding any_of
start-AllAlone now id c l [] v e f no_name = no_name
start-AllAlone now id c l (n ∷ ns) v e f (one_name alone other rest) =
    let ne : n ≢ l = λ q. ground (arith, text_eq_iff l n, sym q) in
    let (_, _, elsewhere) = group_of-group_start_group now id c l v e in
    one_name (elsewhere n ne ∙ alone) other (start-AllAlone now id c l ns v e (ground arith) rest)

start-HasRoom :
    (now : ℕ) (id : Text) (c : GroupContainer) (l : Text)
    → IsWellFormed c
    → id ≢ []
    → size id c.my_groups ≡ 0
    → group_of c l ≡ []
    → HasRoom l id 1 (group_start_group now id c l).0
start-HasRoom now id c l v ne fresh alone =
    let d : GroupContainer = (group_start_group now id c l).0 in
    let sound : IsWellFormed d = group_start_group-WellFormed now id c l ne fresh v in
    elim (group_start_group_outcome now id c l v ne fresh) [
      | inl (grouped, _, _) ↦ absurd (grouped alone)
      | inr (_, own, answer, _, one, _) ↦
          let counted : pos (size (group_of d l) d.my_groups) ≡ pos 1 =
            sym (get_group_info-member_count d l sound.grouped)
            ∙ ap (λ (i : GroupInfo). i.member_count) (sym answer)
            ∙ one in
          let e : size (group_of d l) d.my_groups ≡ 1 = cc in
          record { sound = sound; led = own; filled = ap (λ x. size x d.my_groups) (sym own) ∙ e }
    ]

start-refused :
    (now : ℕ) (id : Text) (c : GroupContainer) (m : Text)
    → group_of c m ≢ []
    → has_failed (group_start_group now id c m).1 ≡ true
unfolding group_start_group
start-refused now id c m grouped =
    let f : is_empty (get_group_info c m).group_id ≡ false =
      not_empty _ (λ e. grouped (sym (get_group_info-group_id c m) ∙ e)) in
    rw (f, group_start_group) refl

leader_apart : any_of (text_eq (codes "Leader1")) (member_names 2 5) ≡ false
unfolding member_names to_string digits_onto any_of text_eq
leader_apart = refl

third_in : any_of (text_eq (codes "Member3")) (member_names 2 5) ≡ true
unfolding member_names to_string digits_onto any_of text_eq
third_in = refl

fourth_in : any_of (text_eq (codes "Member4")) (member_names 2 5) ≡ true
unfolding member_names to_string digits_onto any_of text_eq
fourth_in = refl

unknown_apart : any_of (text_eq (codes "UnknownLeader")) (member_names 2 5) ≡ false
unfolding member_names to_string digits_onto any_of text_eq
unknown_apart = refl

-- `RunGroupTests` reports no error in any container that has its invariant: a seventh member, a second
-- join, a join of a leader without a group and a start by a member are all refused. `Leader1`,
-- `UnknownLeader` and `Member2` to `Member6` are in no group before, and the id of the first start is
-- one that no group has.
pub run_group_tests-passes :
    (now : ℕ) (id second_id : Text) (c : GroupContainer)
    → IsWellFormed c
    → id ≢ []
    → size id c.my_groups ≡ 0
    → AllAlone c (codes "Leader1" ∷ codes "UnknownLeader" ∷ member_names 2 5)
    → (run_group_tests now id second_id c).1 ≡ true ∷ true ∷ true ∷ true ∷ []
unfolding run_group_tests
run_group_tests-passes now id second_id c v ne fresh (one_name alone _ (one_name unknown _ rest)) =
    let l : Text = codes "Leader1" in
    let ns : List Text = member_names 2 5 in
    let started : GroupContainer = (group_start_group now id c l).0 in
    let (full, members) =
      join_all-HasRoom now l id ne (λ e. cc) ns 1 6 started
        (start-HasRoom now id c l v ne fresh alone) (unfold member_names in refl) (omega arith)
        (start-AllAlone now id c l ns v alone leader_apart rest) in
    let filled : GroupContainer = (join_all now l ns started).0 in
    let third : group_of filled (codes "Member3") ≡ id =
      members (codes "Member3")
      ∙ ap (λ x. if x then id else group_of started (codes "Member3")) third_in in
    let fourth : group_of filled (codes "Member4") ≡ id =
      members (codes "Member4")
      ∙ ap (λ x. if x then id else group_of started (codes "Member4")) fourth_in in
    let (_, _, elsewhere) = group_of-group_start_group now id c l v alone in
    let nobody : group_of filled (codes "UnknownLeader") ≡ [] =
      members (codes "UnknownLeader")
      ∙ ap (λ x. if x then id else group_of started (codes "UnknownLeader")) unknown_apart
      ∙ elsewhere (codes "UnknownLeader") (λ e. cc)
      ∙ unknown in
    let (a, sa) = join-refused now filled (codes "Member7") l full.sound (λ j.
      let room = j.1 in
      omega (arith, room, ap (λ x. size x filled.my_groups) full.led, full.filled)) in
    let (b, sb) =
      join-refused now filled (codes "Member3") l full.sound (λ j. ne (sym third ∙ j.2)) in
    let (d, sd) =
      join-refused now filled (codes "StrayMember") (codes "UnknownLeader") full.sound
        (λ j. j.0 nobody) in
    let e = start-refused now second_id filled (codes "Member4") (λ q. ne (sym fourth ∙ q)) in
    rw (sa, sb, sd, a, b, d, e) refl
