-- ===== src/Server/Counts.antt =====
-- What the administrator's snapshot counts.
use mathlib.Core.List.{Perm, Permᴰ}
use mathlib.Core.Logic.{∥∥₁_elim}
use u_dara_chat.Admin.Query.{JsonLibrary, AdminSnapshot, answer_admin_query}
use u_dara_chat.Chat.Message.{DaraChatMsg, serialize}
use u_dara_chat.Base.{
  ℕ, suc, ◌+◌, ◌≡◌, refl, sym, ap, ◌∙◌, Bool, true, List, [], ◌∷◌, Text, text_eq, any_of, map,
  count_if, length, arith,
}
use u_dara_chat.Group.Info.{get_group_info_by_group_id, get_unique_group_ids}
use u_dara_chat.Server.Snapshot.{
  increment, increment_all, channels_of, count_sessions, collect_admin_snapshot,
}
use u_dara_chat.Server.State.{World}
use u_dara_chat.Server.Tally.{
  tally, tally-increment, is_ordered, increment-is_ordered, increment_comm,
}
use u_dara_chat.Server.Channels.{
  is_on_channel, tally-increment_all, increment_all-is_ordered, increment_all_comm,
  count-channels_of,
}

module _ {Double : Type 0} (w : World) where
  -- One round of the loop over the sessions.
  abbrev counted : ℕ → AdminSnapshot Double → AdminSnapshot Double
  counted ws s = record s {
    zones = increment (w.user_data ws).zone s.zones;
    channels = increment_all (channels_of (w.user_data ws).topics []) s.channels;
  }

  zones-count_sessions :
      (z : Text) (m : List (Text × ℕ)) (s : AdminSnapshot Double)
      → tally z (count_sessions w m s).zones
        ≡ count_if (λ (p : Text × ℕ). text_eq (w.user_data p.1).zone z) m + tally z s.zones
  unfolding count_sessions count_if
  zones-count_sessions z [] s = omega arith
  zones-count_sessions z ((n, ws) ∷ m) s = ground (
    arith,
    zones-count_sessions z m (counted ws s),
    tally-increment z (w.user_data ws).zone s.zones,
  )

  channels-count_sessions :
      (t : Text) (m : List (Text × ℕ)) (s : AdminSnapshot Double)
      → tally t (count_sessions w m s).channels
        ≡ count_if (λ (p : Text × ℕ). is_on_channel t (w.user_data p.1)) m + tally t s.channels
  unfolding count_sessions count_if any_of
  channels-count_sessions t [] s = omega arith
  channels-count_sessions t ((n, ws) ∷ m) s = ground (
    arith,
    channels-count_sessions t m (counted ws s),
    tally-increment_all t (channels_of (w.user_data ws).topics []) s.channels,
    count-channels_of t (w.user_data ws).topics [] refl,
  )

  ordered-count_sessions :
      (m : List (Text × ℕ)) (s : AdminSnapshot Double)
      → is_ordered s.zones ≡ true
      → is_ordered s.channels ≡ true
      → (is_ordered (count_sessions w m s).zones ≡ true)
        × (is_ordered (count_sessions w m s).channels ≡ true)
  unfolding count_sessions
  ordered-count_sessions [] s z c = (z, c)
  ordered-count_sessions ((n, ws) ∷ m) s z c =
      ordered-count_sessions m (counted ws s) (increment-is_ordered (w.user_data ws).zone s.zones z)
        (increment_all-is_ordered (channels_of (w.user_data ws).topics []) s.channels c)

  rest-count_sessions :
      (m : List (Text × ℕ)) (s : AdminSnapshot Double)
      → ((count_sessions w m s).connected_clients ≡ s.connected_clients)
        × ((count_sessions w m s).groups ≡ s.groups)
  unfolding count_sessions
  rest-count_sessions [] s = (refl, refl)
  rest-count_sessions ((n, ws) ∷ m) s = rest-count_sessions m (counted ws s)

  -- The loop reads the sockets of the world only.
  count_sessions-reordered :
      (n m : List (Text × ℕ)) (s : AdminSnapshot Double)
      → count_sessions (record w { active_sessions = n }) m s ≡ count_sessions w m s
  unfolding count_sessions
  count_sessions-reordered n [] s = refl
  count_sessions-reordered n ((k, ws) ∷ m) s = count_sessions-reordered n m (counted ws s)

  counted_comm :
      (a b : ℕ) (s : AdminSnapshot Double) → counted a (counted b s) ≡ counted b (counted a s)
  counted_comm a b s =
      ap (λ z. record (counted a (counted b s)) { zones = z })
        (increment_comm (w.user_data a).zone (w.user_data b).zone s.zones)
      ∙ ap (λ c. record (counted b (counted a s)) { channels = c })
          (increment_all_comm (channels_of (w.user_data a).topics [])
            (channels_of (w.user_data b).topics []) s.channels)

  -- The order of the sessions does not matter.
  count_sessions-Permᴰ :
      {m n : List (Text × ℕ)}
      → Permᴰ m n
      → (s : AdminSnapshot Double) → count_sessions w m s ≡ count_sessions w n s
  unfolding count_sessions
  count_sessions-Permᴰ Permᴰ.nil s = refl
  count_sessions-Permᴰ (Permᴰ.cons {b = b} {l₁ = l₁} e p) s =
      ap (λ (x : Text × ℕ). count_sessions w l₁ (counted x.1 s)) e
      ∙ count_sessions-Permᴰ p (counted b.1 s)
  count_sessions-Permᴰ (Permᴰ.swap {b = b} {a' = a'} {b' = b'} {l = l} e f) s =
      ap (λ (x : Text × ℕ). count_sessions w l (counted b.1 (counted x.1 s))) e
      ∙ ap (λ (x : Text × ℕ). count_sessions w l (counted x.1 (counted b'.1 s))) f
      ∙ ap (count_sessions w l) (counted_comm a'.1 b'.1 s)
  count_sessions-Permᴰ (Permᴰ.trans p q) s = count_sessions-Permᴰ p s ∙ count_sessions-Permᴰ q s

length-Permᴰ : {m n : List (Text × ℕ)} → Permᴰ m n → length m ≡ length n
length-Permᴰ Permᴰ.nil = refl
length-Permᴰ (Permᴰ.cons e p) = ap suc (length-Permᴰ p)
length-Permᴰ (Permᴰ.swap e f) = refl
length-Permᴰ (Permᴰ.trans p q) = length-Permᴰ p ∙ length-Permᴰ q

-- What the snapshot counts: the clients are the sessions; a zone's count is the number of sessions
-- whose socket is in that zone, and a channel's count is the number of sessions whose socket uses
-- a slot for it, however often; both tables are in the order of their keys, so that no zone and no
-- channel is listed twice.
pub collect_admin_snapshot_counts :
    {Double : Type 0} (w : World) (uptime : Double)
    → ((collect_admin_snapshot w uptime).connected_clients ≡ length w.active_sessions)
      × ((z : Text)
          → tally z (collect_admin_snapshot w uptime).zones
            ≡ count_if (λ (p : Text × ℕ). text_eq (w.user_data p.1).zone z) w.active_sessions)
      × ((t : Text)
          → tally t (collect_admin_snapshot w uptime).channels
            ≡ count_if (λ (p : Text × ℕ). is_on_channel t (w.user_data p.1)) w.active_sessions)
      × (is_ordered (collect_admin_snapshot w uptime).zones ≡ true)
      × (is_ordered (collect_admin_snapshot w uptime).channels ≡ true)
unfolding collect_admin_snapshot is_ordered tally
collect_admin_snapshot_counts w uptime =
    let (z, c) = ordered-count_sessions w w.active_sessions _ refl refl in
    (
      (rest-count_sessions w w.active_sessions _).0,
      λ z. omega (arith, zones-count_sessions w z w.active_sessions _),
      λ t. omega (arith, channels-count_sessions w t w.active_sessions _),
      z,
      c,
    )

collect_admin_snapshot-Permᴰ :
    {Double : Type 0} (w : World) (uptime : Double) (sessions : List (Text × ℕ))
    → Permᴰ w.active_sessions sessions
    → collect_admin_snapshot (record w { active_sessions = sessions }) uptime
      ≡ collect_admin_snapshot w uptime
unfolding collect_admin_snapshot
collect_admin_snapshot-Permᴰ w uptime sessions d =
    count_sessions-reordered w sessions sessions _
    ∙ sym (count_sessions-Permᴰ w d _)
    ∙ ap
        (λ n. count_sessions w w.active_sessions (record {
          uptime_seconds = uptime;
          connected_clients = n;
          groups =
              map (get_group_info_by_group_id w.group_container)
                (get_unique_group_ids w.group_container);
          zones = [];
          channels = [];
        }))
        (sym (length-Permᴰ d))

-- The order in which `activeSessions`, an unordered map, gives its sessions is not seen by an
-- administrator: for any two orders of the same sessions the answer to a query is the same text.
pub admin_answer_unordered :
    (json : JsonLibrary) (w : World) (uptime : json.Double) (msg : DaraChatMsg) (allowed : Bool)
    (sessions : List (Text × ℕ))
    → Perm w.active_sessions sessions
    → serialize (
        answer_admin_query json msg allowed
          (λ _. collect_admin_snapshot (record w { active_sessions = sessions }) uptime))
      ≡ serialize (answer_admin_query json msg allowed (λ _. collect_admin_snapshot w uptime))
admin_answer_unordered json w uptime msg allowed sessions p = ∥∥₁_elim p (hlevel) (λ d.
    ap (λ x. serialize (answer_admin_query json msg allowed (λ _. x)))
      (collect_admin_snapshot-Permᴰ w uptime sessions d))
