-- ===== src/Group/Invites.antt =====
-- The invitations of `GroupContainer`: add, remove, expire, and the case-insensitive lookup.
use u_dara_chat.Base.{
  ℕ, ◌+◌, ◌-◌, Bool, not, ◌&&◌, [], ◌∷◌, ◌++◌, map, Text, text_eq, keep_if, any_of, leb, ltb, ◌==◌,
  if◌then◌else◌,
}
use u_dara_chat.Group.Types.{GroupInviteData, GroupContainer}

-- `tolower` of the C locale, one byte at a time.
unfoldable pub lower : ℕ → ℕ
lower c = if leb b'A' c && leb c b'Z' then c + 32 else c

-- `c_str()`, which `strcasecmp` reads up to the first NUL byte.
unfoldable pub c_str : Text → Text
c_str [] = []
c_str (c ∷ s) = let rest = c_str s in if c == 0 then [] else c ∷ rest

-- `strcasecmp(a.c_str(), b.c_str()) == 0`.
unfoldable pub same_ignoring_case : Text → Text → Bool
same_ignoring_case a b = text_eq (map lower (c_str a)) (map lower (c_str b))

unfoldable pub add_invite : ℕ → GroupContainer → Text → Text → GroupContainer
add_invite now c leader_name member_name = record c {
  my_invites =
      c.my_invites
      ++ (record { leader_name = leader_name; member_name = member_name; store_time = now } ∷ []);
}

unfoldable pub remove_invite : GroupContainer → Text → Text → GroupContainer
remove_invite c leader_name member_name = record c {
  my_invites =
      keep_if
        (λ (i : GroupInviteData).
          not (text_eq i.leader_name leader_name && text_eq i.member_name member_name))
        c.my_invites;
}

-- `maxAgeSeconds`.
abbrev pub max_age_seconds : ℕ
max_age_seconds = 180

-- A clock that went back gives a negative age there and 0 here; neither is over the limit.
abbrev pub is_old : ℕ → GroupInviteData → Bool
is_old now i = ltb max_age_seconds (now - i.store_time)

unfoldable pub remove_old_invites : ℕ → GroupContainer → GroupContainer
remove_old_invites now c = record c { my_invites = keep_if (λ i. not (is_old now i)) c.my_invites }

abbrev pub invites : Text → Text → GroupInviteData → Bool
invites leader_name member_name i =
    same_ignoring_case i.leader_name leader_name && same_ignoring_case i.member_name member_name

unfoldable pub check_has_invited : GroupContainer → Text → Text → Bool
check_has_invited c leader_name member_name = any_of (invites leader_name member_name) c.my_invites
