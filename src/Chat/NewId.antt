-- ===== src/Chat/NewId.antt =====
-- `uDaraChatLibrary::GetNewGroupId`, which nothing calls: the id of GroupContainer.cpp without its
-- prefix. The draws of the random engine are arguments.
use u_dara_chat.Base.{ℕ, ◌≡◌, refl, ◌∷◌, ◌++◌, Text, codes}
use u_dara_chat.Group.NewId.{hex_digit, hex_run, get_new_group_id}
use u_dara_chat.Group.Types.{my_group_prefix}

unfoldable pub unprefixed_group_id : (ℕ → ℕ) → ℕ → Text
unprefixed_group_id dis dis2 =
    hex_run dis 0 8
    ++ (codes "-"
        ++ (hex_run dis 8 4
            ++ (codes "-4"
                ++ (hex_run dis 12 3
                    ++ (codes "-"
                        ++ (hex_digit dis2
                            ∷ (hex_run dis 15 3 ++ (codes "-" ++ hex_run dis 18 12))))))))

-- From the same draws, the id of the container is this one behind the prefix.
get_new_group_id-unprefixed :
    (dis : ℕ → ℕ) (dis2 : ℕ)
    → get_new_group_id dis dis2 ≡ my_group_prefix ++ unprefixed_group_id dis dis2
unfolding get_new_group_id unprefixed_group_id
get_new_group_id-unprefixed dis dis2 = refl
