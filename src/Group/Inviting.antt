-- ===== src/Group/Inviting.antt =====
-- Which invitations `GroupInvite` allows, and how stored invitations are found, expire and go.
use u_dara_chat.Base.Int.{pos, ltb_ℤ}
use u_dara_chat.Base.{
  ℕ, ◌-◌, ◌≤◌, ◌≡◌, refl, sym, ◌∙◌, ◌≢◌, ◌⊎◌, inl, inr, Bool, true, not, ◌&&◌, ◌||◌, List, [], ◌∷◌,
  ◌++◌, Text, not_empty, text_eq, text_eq_iff, text_eq_refl, text_ne, text_cases, any_of,
  any_of-keep_if, leb, arith, Bool-cases,
}
use u_dara_chat.Group.Answers.{get_group_info-group_id, get_group_info-member_count, empty-cases}
use u_dara_chat.Group.Container.{group_invite}
use u_dara_chat.Group.Count.{size}
use u_dara_chat.Group.Info.{find_group_id, get_group_info}
use u_dara_chat.Group.Invites.{
  same_ignoring_case, add_invite, remove_invite, max_age_seconds, is_old, remove_old_invites,
  invites, check_has_invited,
}
use u_dara_chat.Group.Leaving.{Leads, is_leader-Leads}
use u_dara_chat.Group.Steps.{IsWellFormed}
use u_dara_chat.Group.Types.{
  GroupInviteData, GroupInfo, GroupContainer, group_success, group_is_not_leader,
  group_is_already_in_group, group_is_in_another_group,
}

-- Each guard of `GroupInvite` with its code, and the case where all pass.
abbrev pub InviteAnswer : GroupContainer → Text → Text → GroupInfo → Type 0
InviteAnswer c m n r =
    ((¬ Leads c n) × (r.error_code ≡ group_is_not_leader))
    ⊎ (Leads c n
        × (find_group_id m c.my_groups ≡ find_group_id n c.my_groups)
        × (r.error_code ≡ group_is_already_in_group))
    ⊎ (Leads c n
        × (find_group_id m c.my_groups ≢ find_group_id n c.my_groups)
        × (2 ≤ size (find_group_id m c.my_groups) c.my_groups)
        × (r.error_code ≡ group_is_in_another_group))
    ⊎ (Leads c n
        × (find_group_id m c.my_groups ≢ find_group_id n c.my_groups)
        × (size (find_group_id m c.my_groups) c.my_groups ≤ 1)
        × (r.error_code ≡ group_success)
        × (r.group_id ≡ find_group_id n c.my_groups))

-- Inviting, in a well-formed container: the answer is success exactly for a leader who invites
-- someone outside its group who is in no group or alone in one, also where the leader's group is
-- full; otherwise it has the code of the first guard that fails (not a leader, already in this
-- group, in another group with others).
pub group_invite_outcome :
    (c : GroupContainer) (m n : Text) → IsWellFormed c → InviteAnswer c m n (group_invite c m n)
unfolding group_invite
group_invite_outcome c m n v = elim (Bool-cases (get_group_info c n).is_leader) [
  | inr b ↦ inl (rw b ((λ l. cc ((is_leader-Leads c n v).1 l)), refl))
  | inl b ↦
      let l : Leads c n = (is_leader-Leads c n v).0 b in
      inr (
        rw
          (
            b,
            get_group_info-group_id c m,
            get_group_info-group_id c n,
            get_group_info-member_count c m v.grouped,
          )
          (elim (text_cases (find_group_id m c.my_groups) (find_group_id n c.my_groups)) [
            | inl e ↦ inl (
                rw (e, not_empty _ l.0, text_eq_refl (find_group_id n c.my_groups)) (l, refl, refl))
            | inr ne ↦ inr (
                rw (text_ne _ _ ne) (elim (empty-cases (find_group_id m c.my_groups)) [
                  | inl z ↦ inr (
                      rw z (
                        l,
                        (λ (q : [] ≡ find_group_id n c.my_groups). l.0 (sym q)),
                        omega (arith, v.grouped),
                        refl,
                        refl,
                      ))
                  | inr z ↦
                      rw (not_empty _ z)
                        (elim (Bool-cases
                          (ltb_ℤ (pos 1) (pos (size (find_group_id m c.my_groups) c.my_groups)))) [
                            | inl d ↦ rw d (inl (l, ne, ground arith, refl))
                            | inr d ↦ rw d (inr (l, ne, ground arith, refl, refl))
                          ])
                ]))
          ]))
]

any_of-push :
    {A : Type 0} (p : A → Bool) (xs : List A) (x : A) → any_of p (xs ++ x ∷ []) ≡ any_of p xs || p x
unfolding any_of
any_of-push p [] x = ground arith
any_of-push p (y ∷ xs) x = ground (arith, any_of-push p xs x)

-- An invitation is found under its two names in any capitalisation, until it is more than 180
-- seconds old at a clean-up; other invitations are found as they were.
pub check_has_invited-expire-add :
    (now later : ℕ) (c : GroupContainer) (l m l' m' : Text)
    → check_has_invited (remove_old_invites later (add_invite now c l m)) l' m' ≡ (
        check_has_invited (remove_old_invites later c) l' m'
        || (leb (later - now) max_age_seconds
            && (same_ignoring_case l l' && same_ignoring_case m m')))
unfolding check_has_invited remove_old_invites add_invite
check_has_invited-expire-add now later c l m l' m' =
    any_of-keep_if _ _ _
    ∙ any_of-push _ c.my_invites _
    ∙ ground (arith, any_of-keep_if (λ x. not (is_old later x)) (invites l' m') c.my_invites)

-- An invitation under exactly these two names.
abbrev pub exactly : Text → Text → GroupInviteData → Bool
exactly l m i = text_eq i.leader_name l && text_eq i.member_name m

any_of-split :
    {A : Type 0} (p q : A → Bool) (xs : List A)
    → any_of q xs ≡ any_of (λ x. p x && q x) xs || any_of (λ x. not (p x) && q x) xs
unfolding any_of
any_of-split p q [] = ground arith
any_of-split p q (x ∷ xs) = ground (arith, any_of-split p q xs)

-- Removing an invitation takes away what is stored under exactly these two names, and nothing
-- else: what is found afterwards is what was found before under another spelling.
pub check_has_invited-remove :
    (c : GroupContainer) (l m l' m' : Text)
    → check_has_invited (remove_invite c l m) l' m'
      ≡ any_of (λ i. not (exactly l m i) && invites l' m' i) c.my_invites
unfolding check_has_invited remove_invite
check_has_invited-remove c l m l' m' =
    any_of-keep_if (λ i. not (exactly l m i)) (invites l' m') c.my_invites

-- An invitation stored under another capitalisation of the names is found when it is
-- accepted, and is still found after the acceptance has removed it.
pub remove_invite_other_case :
    (now : ℕ) (c : GroupContainer) (l m l' m' : Text)
    → same_ignoring_case l' l ≡ true
    → same_ignoring_case m' m ≡ true
    → (l' ≢ l) ⊎ (m' ≢ m)
    → check_has_invited (remove_invite (add_invite now c l' m') l m) l m ≡ true
unfolding add_invite
remove_invite_other_case now c l m l' m' a b other =
    check_has_invited-remove (add_invite now c l' m') l m l m
    ∙ any_of-push _ c.my_invites _
    ∙ ground (arith, text_eq_iff l' l, text_eq_iff m' m)
