-- ===== src/Server/Acts.antt =====
-- The small acts that the message handlers of a logged-in socket are made of, and what every such
-- act leaves alone.
use u_dara_chat.Base.{
  ℕ, ◌≡◌, refl, sym, ap, ◌∙◌, List, [], ◌∷◌, ◌++◌, append_assoc, append-nil, Text, codes, ◌==◌,
  ==_iff, Bool-cases, inl, inr,
}
use u_dara_chat.Chat.CmdType.{group_info}
use u_dara_chat.Chat.Message.{DaraChatMsg, serialize}
use u_dara_chat.Group.Reach.{Step}
use u_dara_chat.Group.Types.{GroupContainer}
use u_dara_chat.Server.State.{
  TopicSlot, PerSocketData, Effect, subscribe, unsubscribe, send, publish, World, set_data,
  set_groups, emit,
}

-- An effect that does not speak for anyone but `name`, the group container and the server.
pub data Honest (name : Text) : Effect → Type 0 where
  subscribed : (ws : ℕ) (t : Text) → Honest name (subscribe ws t)
  unsubscribed : (ws : ℕ) (t : Text) → Honest name (unsubscribe ws t)
  answered :
      (ws : ℕ) (m : DaraChatMsg) → m.sender ≡ codes "Server" → Honest name (send ws (serialize m))
  spoken :
      (t : Text) (m : DaraChatMsg) (op : ℕ)
      → m.sender ≡ name
      → Honest name (publish t (serialize m) op)
  announced :
      (t : Text) (m : DaraChatMsg) (op : ℕ)
      → m.sender ≡ codes "GroupAdmin"
      → m.kind ≡ group_info
      → Honest name (publish t (serialize m) op)

pub data AllHonest (name : Text) : List Effect → Type 0 where
  none_made : AllHonest name []
  one_more :
      {e : Effect} {es : List Effect} → Honest name e → AllHonest name es → AllHonest name (e ∷ es)

pub data Acts (name : Text) : World → World → Type 0 where
  stay : {w : World} → Acts name w w
  after : {u v w : World} → Acts name u v → Acts name v w → Acts name u w
  regroup :
      {w : World} {c : GroupContainer} → Step w.group_container c → Acts name w (set_groups w c)
  relabel :
      {w : World} (ws : ℕ) (g : Text)
      → Acts name w (set_data w ws (record (w.user_data ws) { group_id = g }))
  retopic :
      {w : World} (ws : ℕ) (ss : List TopicSlot)
      → Acts name w (set_data w ws (record (w.user_data ws) { topics = ss }))
  effect : {w : World} {e : Effect} → Honest name e → Acts name w (emit w e)

-- What a login fixes in the data of a socket.
pub record SameIdentity (d e : PerSocketData) : Type 0 where
  pub name : d.name ≡ e.name
  pub zone : d.zone ≡ e.zone
  pub is_admin : d.is_admin ≡ e.is_admin
  pub admin_expires_at : d.admin_expires_at ≡ e.admin_expires_at
  pub connected : d.connected ≡ e.connected

pub same : {d : PerSocketData} → SameIdentity d d
same = record {
  name = refl;
  zone = refl;
  is_admin = refl;
  admin_expires_at = refl;
  connected = refl;
}

same_trans : {d e f : PerSocketData} → SameIdentity d e → SameIdentity e f → SameIdentity d f
same_trans a b = record {
  name = a.name ∙ b.name;
  zone = a.zone ∙ b.zone;
  is_admin = a.is_admin ∙ b.is_admin;
  admin_expires_at = a.admin_expires_at ∙ b.admin_expires_at;
  connected = a.connected ∙ b.connected;
}

same_update :
    (w : World) (ws k : ℕ) (d : PerSocketData)
    → SameIdentity d (w.user_data ws)
    → SameIdentity ((set_data w ws d).user_data k) (w.user_data k)
same_update w ws k d s = elim (Bool-cases (k == ws)) [
  | inl h ↦ rw (h, (==_iff k ws).0 h) s
  | inr h ↦ rw h same
]

pub Acts-SameIdentity :
    {name : Text} {w v : World}
    → Acts name w v
    → (k : ℕ) → SameIdentity (v.user_data k) (w.user_data k)
Acts-SameIdentity stay k = same
Acts-SameIdentity (after a b) k = same_trans (Acts-SameIdentity b k) (Acts-SameIdentity a k)
Acts-SameIdentity (regroup s) k = same
Acts-SameIdentity (relabel {w} ws g) k =
    same_update w ws k (record (w.user_data ws) { group_id = g })
      (record {
        name = refl;
        zone = refl;
        is_admin = refl;
        admin_expires_at = refl;
        connected = refl;
      })
Acts-SameIdentity (retopic {w} ws ss) k =
    same_update w ws k (record (w.user_data ws) { topics = ss })
      (record {
        name = refl;
        zone = refl;
        is_admin = refl;
        admin_expires_at = refl;
        connected = refl;
      })
Acts-SameIdentity (effect h) k = same

pub Acts-active_sessions :
    {name : Text} {w v : World} → Acts name w v → v.active_sessions ≡ w.active_sessions
Acts-active_sessions stay = refl
Acts-active_sessions (after a b) = Acts-active_sessions b ∙ Acts-active_sessions a
Acts-active_sessions (regroup s) = refl
Acts-active_sessions (relabel ws g) = refl
Acts-active_sessions (retopic ws ss) = refl
Acts-active_sessions (effect h) = refl

AllHonest-append :
    {name : Text} {es fs : List Effect}
    → AllHonest name es
    → AllHonest name fs
    → AllHonest name (es ++ fs)
AllHonest-append none_made b = b
AllHonest-append (one_more h a) b = one_more h (AllHonest-append a b)

-- The effects of acts: the ones before, and honest ones after them.
pub Acts-effects :
    {name : Text} {w v : World}
    → Acts name w v
    → (es : List Effect) × (v.effects ≡ w.effects ++ es) × AllHonest name es
Acts-effects {w = w} stay = ([], sym (append-nil w.effects), none_made)
Acts-effects {w = w} (after a b) =
    let (es, p, h) = Acts-effects a in
    let (fs, q, k) = Acts-effects b in
    (es ++ fs, q ∙ ap (λ x. x ++ fs) p ∙ append_assoc w.effects es fs, AllHonest-append h k)
Acts-effects {w = w} (regroup s) = ([], sym (append-nil w.effects), none_made)
Acts-effects {w = w} (relabel ws g) = ([], sym (append-nil w.effects), none_made)
Acts-effects {w = w} (retopic ws ss) = ([], sym (append-nil w.effects), none_made)
Acts-effects (effect {w} {e} h) = (e ∷ [], refl, one_more h none_made)
