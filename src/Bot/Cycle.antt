-- ===== src/Bot/Cycle.antt =====
-- The counter of `ChatLoop`.
use u_dara_chat.Base.{ℕ, suc, ◌≤◌, ◌≡◌, Text, codes, text_eq, ◌==◌, if◌then◌else◌, arith}
use u_dara_chat.Bot.Chatter.{Chatter}
use u_dara_chat.Bot.Loop.{
  Counters, Draws, chatting, group_tests, group_member, group_leader, ping_pong, chat_loop,
}

-- The next number of a counter that goes back to 0 behind `limit`.
abbrev pub next_count : ℕ → ℕ → ℕ
next_count limit n = if n == limit then 0 else suc n

-- The modes whose counter runs in a cycle, each with its largest number.
pub data Cycle : Text → ℕ → Type 0 where
  four_talks : Cycle (codes "chatting") 3
  four_pings : Cycle (codes "pingpong") 3
  five_tests : Cycle (codes "grouptests") 4
  five_led : Cycle (codes "groupleader") 4
  ten_joined : Cycle (codes "groupmember") 9

-- In a mode whose counter runs in a cycle, of four, five or ten rounds, a round of `ChatLoop` that
-- starts within the cycle counts up by one, and back to 0 from the largest number, and so stays within
-- the cycle; and the other counter counts up by one.
pub chat_loop-Cycle :
    (c : Chatter) (d : Draws) (n : Counters) {mode : Text} {limit : ℕ}
    → Cycle mode limit
    → n.count ≤ limit
    → ((chat_loop mode c d n).0.count ≡ next_count limit n.count)
      × ((chat_loop mode c d n).0.count ≤ limit)
      × ((chat_loop mode c d n).0.up_time_counter ≡ suc n.up_time_counter)
unfolding chat_loop text_eq chatting group_tests group_member group_leader ping_pong
chat_loop-Cycle c d n four_talks h = (ground arith, ground arith, ground arith)
chat_loop-Cycle c d n four_pings h = (ground arith, ground arith, ground arith)
chat_loop-Cycle c d n five_tests h = (ground arith, ground arith, ground arith)
chat_loop-Cycle c d n five_led h = (ground arith, ground arith, ground arith)
chat_loop-Cycle c d n ten_joined h = (ground arith, ground arith, ground arith)
