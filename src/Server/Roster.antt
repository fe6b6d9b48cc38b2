-- ===== src/Server/Roster.antt =====
-- The map from names to sockets: what `session`, `set_session` and `erase_session` are to each other.
use u_dara_chat.Base.{
  ℕ, ◌≡◌, refl, ◌∙◌, ◌≢◌, List, [], ◌∷◌, none, Text, text_eq_iff, text_cases, inl, inr, arith,
}
use u_dara_chat.Server.State.{session, set_session, erase_session}

pub session-set_session_other :
    (n k : Text) (ws : ℕ) (m : List (Text × ℕ))
    → k ≢ n
    → session k (set_session n ws m) ≡ session k m
unfolding session set_session
session-set_session_other n k ws [] ne = ground (arith, text_eq_iff n k)
session-set_session_other n k ws ((h, v) ∷ m) ne =
    ground (arith, session-set_session_other n k ws m ne, text_eq_iff h n, text_eq_iff h k)

pub session-erase_session_other :
    (n k : Text) (m : List (Text × ℕ)) → k ≢ n → session k (erase_session n m) ≡ session k m
unfolding session erase_session
session-erase_session_other n k [] ne = refl
session-erase_session_other n k ((h, v) ∷ m) ne =
    ground (arith, session-erase_session_other n k m ne, text_eq_iff h n, text_eq_iff h k)

-- No name has two sessions: when one is erased, none is left.
abbrev pub IsSingle : List (Text × ℕ) → Type 0
IsSingle m = (n : Text) → session n (erase_session n m) ≡ none

erase_session-absent : (n : Text) (m : List (Text × ℕ)) → session n m ≡ none → erase_session n m ≡ m
unfolding session erase_session
erase_session-absent n [] e = refl
erase_session-absent n ((h, v) ∷ m) e = ground (arith, erase_session-absent n m)

erase_session-commutes :
    (n k : Text) (m : List (Text × ℕ))
    → k ≢ n
    → erase_session k (erase_session n m) ≡ erase_session n (erase_session k m)
unfolding erase_session
erase_session-commutes n k [] ne = refl
erase_session-commutes n k ((h, v) ∷ m) ne =
    ground (arith, erase_session-commutes n k m ne, text_eq_iff h n, text_eq_iff h k)

erase_session-set_session :
    (n : Text) (ws : ℕ) (m : List (Text × ℕ))
    → erase_session n (set_session n ws m) ≡ erase_session n m
unfolding erase_session set_session
erase_session-set_session n ws [] = ground (arith, text_eq_iff n n)
erase_session-set_session n ws ((h, v) ∷ m) = ground (arith, erase_session-set_session n ws m)

erase_session-set_session_other :
    (n k : Text) (ws : ℕ) (m : List (Text × ℕ))
    → k ≢ n
    → erase_session k (set_session n ws m) ≡ set_session n ws (erase_session k m)
unfolding erase_session set_session
erase_session-set_session_other n k ws [] ne = ground (arith, text_eq_iff n k)
erase_session-set_session_other n k ws ((h, v) ∷ m) ne =
    ground (arith, erase_session-set_session_other n k ws m ne, text_eq_iff h n, text_eq_iff h k)

pub set_session-IsSingle :
    (n : Text) (ws : ℕ) (m : List (Text × ℕ)) → IsSingle m → IsSingle (set_session n ws m)
set_session-IsSingle n ws m s k = elim (text_cases k n) [
  | inl e ↦ rw (e, erase_session-set_session n ws m) (s n)
  | inr ne ↦
      rw (erase_session-set_session_other n k ws m ne)
        (session-set_session_other n k ws (erase_session k m) ne ∙ s k)
]

pub erase_session-IsSingle :
    (n : Text) (m : List (Text × ℕ)) → IsSingle m → IsSingle (erase_session n m)
erase_session-IsSingle n m s k = elim (text_cases k n) [
  | inl e ↦ rw (e, erase_session-absent n (erase_session n m) (s n)) (s n)
  | inr ne ↦
      rw (erase_session-commutes n k m ne)
        (session-erase_session_other n k (erase_session k m) ne ∙ s k)
]
