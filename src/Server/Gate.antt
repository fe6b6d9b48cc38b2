-- ===== src/Server/Gate.antt =====
-- A login that is refused.
use u_dara_chat.Base.{ℕ, ◌≡◌, refl, true, false, Text, codes, starts_with, Bool-cases, inl, inr}
use u_dara_chat.Login.Verify.{rejected, verify_login}
use u_dara_chat.Server.Events.{Env, on_close, end_socket, on_connect, on_text, on_message}
use u_dara_chat.Server.Groups.{Now}
use u_dara_chat.Server.State.{World, close_socket, emit}

module _ (env : Env) (now : Now) (w : World) (ws : ℕ)
    (closed : (w.user_data ws).connected ≡ false) where
  end_socket_unauthenticated :
      (code : ℕ) (reason : Text)
      → end_socket env now w ws code reason ≡ emit w (close_socket ws code reason)
  unfolding end_socket on_close
  end_socket_unauthenticated code reason = elim (Bool-cases env.closes_at_once) [
    | inl h ↦ rw (h, closed) refl
    | inr h ↦ rw h refl
  ]

  -- At a socket that has not logged in, a text frame that asks for a login and is refused has one
  -- effect, the socket is closed with code 1008, whether or not the library runs the close handler
  -- inside `end`.
  pub on_message_refused_login :
      (message : Text) {reason : Text}
      → starts_with (codes "connect:") message ≡ true
      → verify_login env.jwt message env.secret now.ticks ≡ rejected reason
      → on_message env now w ws message 1
        ≡ emit w (close_socket ws 1008 (codes "Authentication failed"))
  unfolding on_message on_text on_connect
  on_message_refused_login message login refuse =
      rw (login, closed, refuse) (end_socket_unauthenticated 1008 (codes "Authentication failed"))
