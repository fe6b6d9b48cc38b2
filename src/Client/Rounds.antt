-- ===== src/Client/Rounds.antt =====
-- Which messages the client sends in which round.
use u_dara_chat.Base.{
  ℕ, zero, suc, ◌%◌, ◌≡◌, refl, ap, ◌∙◌, false, List, [], ◌∷◌, ◌++◌, Text, codes, ◌==◌, arith,
  if◌then◌else◌, Bool-cases, inl, inr,
}
use u_dara_chat.Chat.CmdType.{channel, group_invite, zone, tell}
use u_dara_chat.Chat.Message.{serialize}
use u_dara_chat.Client.Talk.{
  Client, draw_message, advance, send_random_message, send_random_invite, send_zone_message,
  send_tell_message, Counts, new_counts, RoundDraws, client_round,
}

-- The counters after a number of rounds.
abbrev pub counts_after : Client → (ℕ → RoundDraws) → ℕ → Counts
counts_after c ds zero = new_counts
counts_after c ds (suc n) = (client_round c (ds n) (counts_after c ds n)).0

-- What is sent in round `k`, where the first one is round 1.
abbrev pub schedule : Client → RoundDraws → ℕ → List Text
schedule c d k =
    serialize (record {
      kind = channel;
      sender = c.my_char_name;
      recipient = codes "World";
      message = draw_message d.world_draw;
    })
    ∷ ((if k % 11 == 3
          then serialize (record {
            kind = group_invite;
            sender = c.my_char_name;
            recipient = codes "MeMercenary";
            message = [];
          })
            ∷ []
          else [])
        ++ ((if k % 11 == 5
              then serialize (record {
                kind = zone;
                sender = c.my_char_name;
                recipient = [];
                message = codes "Talking to Zone: " ++ draw_message d.zone_draw;
              })
                ∷ []
              else [])
            ++ (if k % 6 == 5
                then serialize (record {
                  kind = tell;
                  sender = c.my_char_name;
                  recipient = codes "MeMercenary";
                  message = draw_message d.tell_draw;
                })
                  ∷ []
                else [])))

advance-rest_ten : (n : ℕ) → advance 10 (n % 11) ≡ suc n % 11
advance-rest_ten n = ground arith

advance-rest_five : (n : ℕ) → advance 5 (n % 6) ≡ suc n % 6
advance-rest_five n = ground arith

-- What a counter of a sending function comes to, and when something is sent.
counted :
    (n k : ℕ) (x : Text) (r : ℕ × List Text)
    → r ≡ (if n == k then (n, x ∷ []) else (n, []))
    → (r.0 ≡ n) × (r.1 ≡ (if n == k then x ∷ [] else []))
counted n k x r e = elim (Bool-cases (n == k)) [
  | inl h ↦ rw (e, h) (refl, refl)
  | inr h ↦ rw (e, h) (refl, refl)
]

send_random_invite-counted :
    (c : Client) (count : ℕ)
    → ((send_random_invite c count).0 ≡ advance 10 count)
      × ((send_random_invite c count).1 ≡ (
          if advance 10 count == 3
          then serialize (record {
            kind = group_invite;
            sender = c.my_char_name;
            recipient = codes "MeMercenary";
            message = [];
          })
            ∷ []
          else []))
unfolding send_random_invite
send_random_invite-counted c count =
    counted (advance 10 count) 3 _ (send_random_invite c count) refl

send_zone_message-counted :
    (c : Client) (draw count : ℕ)
    → ((send_zone_message c draw count).0 ≡ advance 10 count)
      × ((send_zone_message c draw count).1 ≡ (
          if advance 10 count == 5
          then serialize (record {
            kind = zone;
            sender = c.my_char_name;
            recipient = [];
            message = codes "Talking to Zone: " ++ draw_message draw;
          })
            ∷ []
          else []))
unfolding send_zone_message
send_zone_message-counted c draw count =
    counted (advance 10 count) 5 _ (send_zone_message c draw count) refl

send_tell_message-counted :
    (c : Client) (draw count : ℕ)
    → ((send_tell_message c draw count).0 ≡ advance 5 count)
      × ((send_tell_message c draw count).1 ≡ (
          if advance 5 count == 5
          then serialize (record {
            kind = tell;
            sender = c.my_char_name;
            recipient = codes "MeMercenary";
            message = draw_message draw;
          })
            ∷ []
          else []))
unfolding send_tell_message
send_tell_message-counted c draw count =
    counted (advance 5 count) 5 _ (send_tell_message c draw count) refl

-- What a round of a client that is not silent comes to.
abbrev sent : Client → RoundDraws → Counts → Counts × List Text
sent c d n = (
  record {
    invites = (send_random_invite c n.invites).0;
    zones = (send_zone_message c d.zone_draw n.zones).0;
    tells = (send_tell_message c d.tell_draw n.tells).0;
  },
  send_random_message c d.world_draw
      ++ ((send_random_invite c n.invites).1
          ++ ((send_zone_message c d.zone_draw n.zones).1
              ++ (send_tell_message c d.tell_draw n.tells).1)),
)

client_round-chatty :
    (c : Client) (d : RoundDraws) (n : Counts)
    → c.silent_mode ≡ false
    → client_round c d n ≡ sent c d n
unfolding client_round
client_round-chatty c d n chatty = ap (λ b. if b then (n, []) else sent c d n) chatty

module _ (c : Client) (ds : ℕ → RoundDraws) (chatty : c.silent_mode ≡ false) where
  counts_after-rest :
      (n : ℕ)
      → ((counts_after c ds n).invites ≡ n % 11)
        × ((counts_after c ds n).zones ≡ n % 11)
        × ((counts_after c ds n).tells ≡ n % 6)
  counts_after-rest zero = (refl, refl, refl)
  counts_after-rest (suc n) =
      let (i, z, t) = counts_after-rest n in
      let m : Counts = counts_after c ds n in
      let e : (client_round c (ds n) m).0 ≡ (sent c (ds n) m).0 =
        ap (λ (r : Counts × List Text). r.0) (client_round-chatty c (ds n) m chatty) in
      (
        ap (λ (k : Counts). k.invites) e
            ∙ (send_random_invite-counted c m.invites).0
            ∙ ap (advance 10) i
            ∙ advance-rest_ten n,
        ap (λ (k : Counts). k.zones) e
            ∙ (send_zone_message-counted c (ds n).zone_draw m.zones).0
            ∙ ap (advance 10) z
            ∙ advance-rest_ten n,
        ap (λ (k : Counts). k.tells) e
            ∙ (send_tell_message-counted c (ds n).tell_draw m.tells).0
            ∙ ap (advance 5) t
            ∙ advance-rest_five n,
      )

  -- A client that is not silent sends in its round `k`, the first one being round 1, exactly this: a
  -- message to the world; behind it an invitation if `k` leaves 3 divided by 11; a message to the zone
  -- if `k` leaves 5 divided by 11; and a tell if `k` leaves 5 divided by 6.
  pub client_round-schedule :
      (n : ℕ) → (client_round c (ds n) (counts_after c ds n)).1 ≡ schedule c (ds n) (suc n)
  unfolding send_random_message
  client_round-schedule n =
      let (i, z, t) = counts_after-rest n in
      let m : Counts = counts_after c ds n in
      rw
        (
          client_round-chatty c (ds n) m chatty,
          (send_random_invite-counted c m.invites).1,
          (send_zone_message-counted c (ds n).zone_draw m.zones).1,
          (send_tell_message-counted c (ds n).tell_draw m.tells).1,
          i,
          z,
          t,
          advance-rest_ten n,
          advance-rest_five n,
        )
        refl
