-- ===== src/Server/Entering.antt =====
-- The first half of an accepted login: the socket takes its name, and the old session is retired.
use u_dara_chat.Base.{
  ℕ, ◌≡◌, refl, sym, ap, ◌∙◌, ◌≢◌, true, false, List, ◌∷◌, Option, none, some, Text, codes, any_of,
  ◌==◌, ==_iff, arith, Bool-cases, inl, inr,
}
use u_dara_chat.Login.Verify.{AuthenticatedLogin}
use u_dara_chat.Server.Closing.{end_socket-Adds, end_socket-has_ended, end_socket-IsConsistent}
use u_dara_chat.Server.Consistent.{has_ended, is_gone, Adds-has_ended, IsLive, IsConsistent}
use u_dara_chat.Server.Events.{Env, retire, log_in}
use u_dara_chat.Server.Groups.{Now}
use u_dara_chat.Server.Sessions.{end_socket-user_data, retire-user_data}
use u_dara_chat.Server.State.{World, PerSocketData, session, set_data}

module _ (env : Env) (now : Now) where
  retire-IsConsistent :
      {gone : List ℕ} (w : World) (ws : ℕ) (o : Option ℕ)
      → IsConsistent gone w
      → IsConsistent gone (retire env now w ws o)
  retire-IsConsistent w ws none c = c
  retire-IsConsistent w ws (some old) c = elim (Bool-cases (old == ws)) [
    | inl h ↦ rw h c
    | inr h ↦ rw h (end_socket-IsConsistent env now w old 1000 (codes "Reconnected") c)
  ]

  retire-has_ended :
      (w : World) (ws old : ℕ) → old ≢ ws → has_ended old (retire env now w ws (some old)) ≡ true
  retire-has_ended w ws old ne = elim (Bool-cases (old == ws)) [
    | inl h ↦ absurd (ne ((==_iff old ws).0 h))
    | inr h ↦ rw h (end_socket-has_ended env now w old 1000 (codes "Reconnected"))
  ]

  retire-IsLive :
      {gone : List ℕ} (w : World) (ws : ℕ) (o : Option ℕ) (k : ℕ)
      → IsLive gone (retire env now w ws o) k
      → IsLive gone w k
  retire-IsLive w ws none k l = l
  retire-IsLive w ws (some old) k l = elim (Bool-cases (old == ws)) [
    | inl h ↦ rw h at l
    | inr h ↦
        let l' = rw h at l in
        record {
          connected =
              ap (λ (f : ℕ → PerSocketData). (f k).connected)
                (sym (end_socket-user_data env now w old 1000 (codes "Reconnected")))
              ∙ l'.connected;
          not_ended =
              Adds-has_ended (end_socket-Adds env now w old 1000 (codes "Reconnected")) k
                l'.not_ended;
          not_gone = l'.not_gone;
        }
  ]

pub other_data :
    (w : World) (ws k : ℕ) (d : PerSocketData)
    → k ≢ ws
    → (set_data w ws d).user_data k ≡ w.user_data k
other_data w ws k d ne = ground (arith, ==_iff k ws)

pub own_data : (w : World) (ws : ℕ) (d : PerSocketData) → (set_data w ws d).user_data ws ≡ d
own_data w ws d = rw ((==_iff ws ws).1 refl) refl

pub not_gone-other :
    (gone : List ℕ) (ws k : ℕ) → is_gone k (ws ∷ gone) ≡ false → (k ≢ ws) × (is_gone k gone ≡ false)
unfolding any_of
not_gone-other gone ws k f = (λ e. ground (arith, ==_iff ws k), ground arith)

pub cons-is_gone :
    (gone : List ℕ) (ws k : ℕ) → k ≢ ws → is_gone k gone ≡ false → is_gone k (ws ∷ gone) ≡ false
unfolding any_of
cons-is_gone gone ws k ne f = ground (arith, f, ==_iff ws k)

module _ {gone : List ℕ} (env : Env) (now : Now) (w : World) (ws : ℕ) (login : AuthenticatedLogin)
    (c : IsConsistent gone w) (off : (w.user_data ws).connected ≡ false) where
  abbrev pub logged : World
  logged = set_data w ws (log_in (w.user_data ws) login)

  pub seat-other : (n : Text) (k : ℕ) → session n w.active_sessions ≡ some k → k ≢ ws
  seat-other n k s e =
      let t : (w.user_data k).connected ≡ true = (c.seated n k s).connected in
      let f : (w.user_data k).connected ≡ false = rw e off in cc

  -- All but the new socket, whose session is not set yet.
  pub logged-IsConsistent : IsConsistent (ws ∷ gone) logged
  logged-IsConsistent = record {
    sound = c.sound;
    single = c.single;
    seated = λ n k s.
        let old = c.seated n k s in
        let e = other_data w ws k (log_in (w.user_data ws) login) (seat-other n k s) in
        record {
          connected = ap (λ (d : PerSocketData). d.connected) e ∙ old.connected;
          name = ap (λ (d : PerSocketData). d.name) e ∙ old.name;
          group = ap (λ (d : PerSocketData). d.group_id) e ∙ old.group;
        };
    live = λ k l.
        let (ne, here) = not_gone-other gone ws k l.not_gone in
        let e = other_data w ws k (log_in (w.user_data ws) login) ne in
        rw e (
          c.live k (record {
            connected = ap (λ (d : PerSocketData). d.connected) (sym e) ∙ l.connected;
            not_ended = l.not_ended;
            not_gone = here;
          }));
  }

  abbrev pub retired : World
  retired = retire env now logged ws (session login.character_name w.active_sessions)

  pub retired-IsConsistent : IsConsistent (ws ∷ gone) retired
  retired-IsConsistent =
      retire-IsConsistent env now logged ws (session login.character_name w.active_sessions)
        logged-IsConsistent

  pub retired-name :
      (k : ℕ) → IsLive (ws ∷ gone) retired k → (retired.user_data k).name ≢ login.character_name
  retired-name k l e =
      let named : (logged.user_data k).name ≡ login.character_name =
        ap (λ (f : ℕ → PerSocketData). (f k).name)
          (sym
            (retire-user_data env now logged ws (session login.character_name w.active_sessions)))
        ∙ e in
      let l1 : IsLive (ws ∷ gone) logged k =
        retire-IsLive env now logged ws (session login.character_name w.active_sessions) k l in
      let s : session login.character_name w.active_sessions ≡ some k =
        ap (λ n. session n w.active_sessions) (sym named) ∙ logged-IsConsistent.live k l1 in
      let t = retire-has_ended env now logged ws k (not_gone-other gone ws k l.not_gone).0 in
      let f : has_ended k (retire env now logged ws (some k)) ≡ false =
        ap (λ o. has_ended k (retire env now logged ws o)) (sym s) ∙ l.not_ended in
      cc
