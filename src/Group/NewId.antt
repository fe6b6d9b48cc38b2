-- ===== src/Group/NewId.antt =====
-- `GroupContainer::GetNewGroupId`. The random engine is the standard library's: its draws are
-- arguments, `dis i` the i-th value of the distribution over 0..15 and `dis2` the one over 8..11.
use u_dara_chat.Base.{
  ℕ, zero, suc, ◌+◌, ◌-◌, ◌≡◌, refl, ◌≢◌, true, [], ◌∷◌, ◌++◌, Text, codes, length, starts_with,
  starts_with-append, ltb, arith, if◌then◌else◌,
}
use u_dara_chat.Group.Types.{my_group_prefix}

-- `ss << std::hex << d` for one digit.
unfoldable pub hex_digit : ℕ → ℕ
hex_digit d = if ltb d 10 then b'0' + d else b'a' + (d - 10)

-- A loop `for (int i = 0; i < count; ++i) ss << dis(gen)` that begins at the draw `from`.
unfoldable pub hex_run : (ℕ → ℕ) → ℕ → ℕ → Text
hex_run dis from zero = []
hex_run dis from (suc count) = hex_digit (dis from) ∷ hex_run dis (suc from) count

unfoldable pub get_new_group_id : (ℕ → ℕ) → ℕ → Text
get_new_group_id dis dis2 =
    my_group_prefix
    ++ (hex_run dis 0 8
        ++ (codes "-"
            ++ (hex_run dis 8 4
                ++ (codes "-4"
                    ++ (hex_run dis 12 3
                        ++ (codes "-"
                            ++ (hex_digit dis2
                                ∷ (hex_run dis 15 3 ++ (codes "-" ++ hex_run dis 18 12)))))))))

length-hex_run : (dis : ℕ → ℕ) (from count : ℕ) → length (hex_run dis from count) ≡ count
unfolding hex_run
length-hex_run dis from zero = refl
length-hex_run dis from (suc count) = omega (arith, length-hex_run dis (suc from) count)

pub get_new_group_id-ne-nil : (dis : ℕ → ℕ) (dis2 : ℕ) → get_new_group_id dis dis2 ≢ []
unfolding get_new_group_id
get_new_group_id-ne-nil dis dis2 e = cc

-- Every new id has the prefix `group_` and 36 more characters, whatever was drawn.
pub get_new_group_id_shape :
    (dis : ℕ → ℕ) (dis2 : ℕ)
    → (starts_with my_group_prefix (get_new_group_id dis dis2) ≡ true)
      × (length (get_new_group_id dis dis2) ≡ 42)
unfolding get_new_group_id hex_run
get_new_group_id_shape dis dis2 = (starts_with-append my_group_prefix _, refl)
