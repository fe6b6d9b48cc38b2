-- ===== src/Server/Consistent.antt =====
-- The sessions, the sockets and the group container beside each other.
use u_dara_chat.Base.{
  ℕ, ◌≡◌, refl, sym, ap, ◌∙◌, Bool, true, false, ◌||◌, List, [], ◌∷◌, ◌++◌, some, Text, any_of,
  ◌==◌, arith,
}
use u_dara_chat.Group.Names.{group_of}
use u_dara_chat.Group.Steps.{IsWellFormed}
use u_dara_chat.Server.Grows.{Adds, Grows, emit-Grows}
use u_dara_chat.Server.Keeps.{Quiet}
use u_dara_chat.Server.Roster.{IsSingle}
use u_dara_chat.Server.State.{Effect, close_socket, World, session, emit}

abbrev pub closes : ℕ → Effect → Bool
closes ws (close_socket k code reason) = k == ws
closes ws _ = false

-- The server has asked for the end of the socket.
abbrev pub has_ended : ℕ → World → Bool
has_ended ws w = any_of (closes ws) w.effects

abbrev pub is_gone : ℕ → List ℕ → Bool
is_gone ws gone = any_of (λ g. g == ws) gone

-- A socket that is logged in, that the server has not ended, and whose close event has not come.
pub record IsLive (gone : List ℕ) (w : World) (ws : ℕ) : Type 0 where
  pub connected : (w.user_data ws).connected ≡ true
  pub not_ended : has_ended ws w ≡ false
  pub not_gone : is_gone ws gone ≡ false

-- A session's socket has logged in under its name, and has the group id of the container.
pub record IsSeated (w : World) (n : Text) (ws : ℕ) : Type 0 where
  pub connected : (w.user_data ws).connected ≡ true
  pub name : (w.user_data ws).name ≡ n
  pub group : (w.user_data ws).group_id ≡ group_of w.group_container n

-- The container has its invariant; a name has one session at most; every session is seated; and
-- every live socket is the session of its name.
pub record IsConsistent (gone : List ℕ) (w : World) : Type 0 where
  pub sound : IsWellFormed w.group_container
  pub single : IsSingle w.active_sessions
  pub seated : (n : Text) (ws : ℕ) → session n w.active_sessions ≡ some ws → IsSeated w n ws
  pub live : (ws : ℕ) → IsLive gone w ws → session (w.user_data ws).name w.active_sessions ≡ some ws

pub any_of-append :
    {A : Type 0} (p : A → Bool) (xs ys : List A)
    → any_of p (xs ++ ys) ≡ (any_of p xs || any_of p ys)
unfolding any_of
any_of-append p [] ys = refl
any_of-append p (x ∷ xs) ys = ground (arith, any_of-append p xs ys)

pub Adds-has_ended :
    {w v : World} → Adds w v → (k : ℕ) → has_ended k v ≡ false → has_ended k w ≡ false
Adds-has_ended {w} {v} a k f =
    let h : (has_ended k w || any_of (closes k) a.more) ≡ false =
      sym (any_of-append (closes k) w.effects a.more)
      ∙ ap (any_of (closes k)) (sym a.appended)
      ∙ f in
    ground arith

-- What is live after more effects was live before.
pub Grows-IsLive :
    {gone : List ℕ} {w v : World} → Grows w v → (k : ℕ) → IsLive gone v k → IsLive gone w k
Grows-IsLive g k l = record {
  connected = sym (g.identity k).connected ∙ l.connected;
  not_ended = Adds-has_ended g.effects k l.not_ended;
  not_gone = l.not_gone;
}

-- A change that keeps the sessions, the identities and the effects so far.
pub Grows-IsConsistent :
    {gone : List ℕ} {w v : World}
    → Grows w v
    → IsWellFormed v.group_container
    → ((n : Text) (ws : ℕ)
        → session n w.active_sessions ≡ some ws
        → (v.user_data ws).group_id ≡ group_of v.group_container n)
    → IsConsistent gone w
    → IsConsistent gone v
Grows-IsConsistent g sound grouped c = record {
  sound = sound;
  single = rw g.sessions c.single;
  seated = λ n k s.
      let old = c.seated n k (rw (sym g.sessions) s) in
      record {
        connected = (g.identity k).connected ∙ old.connected;
        name = (g.identity k).name ∙ old.name;
        group = grouped n k (rw (sym g.sessions) s);
      };
  live = λ k l. rw (g.sessions, (g.identity k).name) (c.live k (Grows-IsLive g k l));
}

pub Quiet-IsConsistent :
    {gone : List ℕ} {w v : World}
    → Grows w v
    → Quiet w v
    → IsConsistent gone w
    → IsConsistent gone v
Quiet-IsConsistent g q c =
    Grows-IsConsistent g (rw q.groups c.sound)
      (λ n k s. q.ids k ∙ (c.seated n k s).group ∙ sym (ap (λ d. group_of d n) q.groups)) c

-- More close events.
pub gone-IsConsistent :
    {gone : List ℕ} {w : World} (ws : ℕ) → IsConsistent gone w → IsConsistent (ws ∷ gone) w
unfolding any_of
gone-IsConsistent {gone} {w} ws c = record {
  sound = c.sound;
  single = c.single;
  seated = c.seated;
  live = λ k l. c.live k (record {
    connected = l.connected;
    not_ended = l.not_ended;
    not_gone = ground (arith, l.not_gone);
  });
}

pub emit-IsConsistent :
    {gone : List ℕ} {w : World} (e : Effect) → IsConsistent gone w → IsConsistent gone (emit w e)
emit-IsConsistent {gone} {w} e c =
    Quiet-IsConsistent (emit-Grows w e) (record { ids = λ k. refl; groups = refl }) c
