-- ===== src/Server/State.antt =====
-- The state that the handlers of uDaraChatServer.cpp share. A socket is a number; `user_data` is
-- what `getUserData` points to. What the handlers ask of uWebSockets is a list of effects, oldest
-- first; the library itself is not modelled. Log output is left out.
use u_dara_chat.Base.{
  ℕ, Bool, false, List, [], ◌∷◌, ◌++◌, Option, none, some, Text, text_eq, ◌==◌, if◌then◌else◌,
}
use u_dara_chat.Group.Types.{GroupContainer}

pub record TopicSlot : Type 0 where
  pub topic : Text
  pub used : Bool

pub record PerSocketData : Type 0 where
  pub name : Text
  pub zone : Text
  pub group_id : Text
  pub topics : List TopicSlot
  pub is_admin : Bool
  pub admin_expires_at : ℕ
  pub connected : Bool

abbrev pub new_per_socket_data : PerSocketData
new_per_socket_data = record {
  name = [];
  zone = [];
  group_id = [];
  topics = [];
  is_admin = false;
  admin_expires_at = 0;
  connected = false;
}

-- `ws->subscribe`, `ws->unsubscribe`, `ws->send`, `ws->end` and `app->publish`.
pub data Effect : Type 0 where
  subscribe : ℕ → Text → Effect
  unsubscribe : ℕ → Text → Effect
  send : ℕ → Text → Effect
  close_socket : ℕ → ℕ → Text → Effect
  publish : Text → Text → ℕ → Effect

pub record World : Type 0 where
  pub user_data : ℕ → PerSocketData
  pub active_sessions : List (Text × ℕ)
  pub group_container : GroupContainer
  pub effects : List Effect

-- `activeSessions.find`, `activeSessions[name] = ws` and `erase`.
unfoldable pub session : Text → List (Text × ℕ) → Option ℕ
session n [] = none
session n ((k, ws) ∷ m) = if text_eq k n then some ws else session n m

unfoldable pub set_session : Text → ℕ → List (Text × ℕ) → List (Text × ℕ)
set_session n ws [] = (n, ws) ∷ []
set_session n ws ((k, v) ∷ m) = if text_eq k n then (k, ws) ∷ m else (k, v) ∷ set_session n ws m

unfoldable pub erase_session : Text → List (Text × ℕ) → List (Text × ℕ)
erase_session n [] = []
erase_session n ((k, v) ∷ m) = if text_eq k n then m else (k, v) ∷ erase_session n m

abbrev pub update : (ℕ → PerSocketData) → ℕ → PerSocketData → ℕ → PerSocketData
update f ws d k = if k == ws then d else f k

abbrev pub set_data : World → ℕ → PerSocketData → World
set_data w ws d = record w { user_data = update w.user_data ws d }

abbrev pub emit : World → Effect → World
emit w e = record w { effects = w.effects ++ e ∷ [] }

abbrev pub set_groups : World → GroupContainer → World
set_groups w c = record w { group_container = c }
