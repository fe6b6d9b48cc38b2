-- ===== src/Server/Snapshot.antt =====
-- `CollectAdminSnapshot`.
use Prim.Native.Nat.{compare, Ordering}
use u_dara_chat.Admin.Query.{AdminSnapshot}
use u_dara_chat.Base.{
  ℕ, suc, Bool, true, false, not, ◌&&◌, List, [], ◌∷◌, map, Text, codes, text_eq, starts_with,
  length, if◌then◌else◌,
}
use u_dara_chat.Group.Info.{get_group_info_by_group_id, get_unique_group_ids, insert_unique}
use u_dara_chat.Server.State.{TopicSlot, World}

-- `operator<` on strings.
unfoldable pub text_lt : Text → Text → Bool
text_lt s [] = false
text_lt [] (y ∷ t) = true
text_lt (x ∷ s) (y ∷ t) =
    let rest = text_lt s t in
    elim (compare x y) [ Ordering.lt ↦ true | Ordering.eq ↦ rest | Ordering.gt ↦ false ]

-- `++map[key]` on a `std::map`, as its entries in the order of their keys.
unfoldable pub increment : Text → List (Text × ℕ) → List (Text × ℕ)
increment k [] = (k, 1) ∷ []
increment k ((j, n) ∷ m) =
    let rest = increment k m in
    if text_eq j k
    then (j, suc n) ∷ m
    else if text_lt k j
    then (k, 1) ∷ (j, n) ∷ m
    else (j, n) ∷ rest

abbrev pub is_channel_slot : TopicSlot → Bool
is_channel_slot s =
    s.used
    && (not (starts_with (codes "tell_") s.topic)
        && (not (starts_with (codes "group_") s.topic)
            && not (starts_with (codes "zone_") s.topic)))

-- The set of the channels of one connection.
unfoldable pub channels_of : List TopicSlot → List Text → List Text
channels_of [] seen = seen
channels_of (s ∷ ss) seen =
    channels_of ss (if is_channel_slot s then insert_unique s.topic seen else seen)

unfoldable pub increment_all : List Text → List (Text × ℕ) → List (Text × ℕ)
increment_all [] m = m
increment_all (k ∷ ks) m = increment_all ks (increment k m)

module _ {Double : Type 0} (w : World) where
  -- The loop over `activeSessions`.
  unfoldable pub count_sessions : List (Text × ℕ) → AdminSnapshot Double → AdminSnapshot Double
  count_sessions [] state = state
  count_sessions ((_, ws) ∷ rest) state = count_sessions rest (record state {
    zones = increment (w.user_data ws).zone state.zones;
    channels = increment_all (channels_of (w.user_data ws).topics []) state.channels;
  })

  -- `uptime` is the time since the start, as a `double`.
  unfoldable pub collect_admin_snapshot : Double → AdminSnapshot Double
  collect_admin_snapshot uptime = count_sessions w.active_sessions (record {
    uptime_seconds = uptime;
    connected_clients = length w.active_sessions;
    groups =
        map (get_group_info_by_group_id w.group_container) (get_unique_group_ids w.group_container);
    zones = [];
    channels = [];
  })
