-- ===== src/Chat/Split.antt =====
-- `std::getline` with a delimiter, on a text that is put together from its parts.
use u_dara_chat.Base.{ℕ, ◌≡◌, refl, ◌≢◌, [], ◌∷◌, ◌++◌, Text, getlines, any_of, arith}
use u_dara_chat.Chat.Find.{Free}

pub getlines-append : (c : ℕ) (p r : Text) → Free c p → getlines c (p ++ c ∷ r) ≡ p ∷ getlines c r
unfolding getlines any_of
getlines-append c [] r f = ground arith
getlines-append c (d ∷ p) r f = ground (arith, getlines-append c p r)

-- The last part, if it is not empty.
pub getlines-last : (c : ℕ) (p : Text) → Free c p → p ≢ [] → getlines c p ≡ p ∷ []
unfolding getlines any_of
getlines-last c [] f e = absurd (e refl)
getlines-last c (d ∷ []) f e = ground arith
getlines-last c (d ∷ b ∷ p) f e =
    let more : getlines c (b ∷ p) ≡ (b ∷ p) ∷ [] =
      getlines-last c (b ∷ p) (ground arith) (λ q. cc) in
    ground (arith, more)
