-- ===== src/Server/Reached.antt =====
-- The group container in a run of the server is one that its own operations reach.
use u_dara_chat.Base.Decimal.{to_string}
use u_dara_chat.Base.{ℕ, List}
use u_dara_chat.Group.Reach.{Reach, here, next}
use u_dara_chat.Server.Events.{Env}
use u_dara_chat.Server.Grows.{on_open-Grows}
use u_dara_chat.Server.History.{Run, boot, opened, received, closed}
use u_dara_chat.Server.Integrity.{on_message-IsSound, on_close-IsSound}
use u_dara_chat.Server.State.{World}

-- In every run of the server from its start, whatever its sockets send, the group container is one
-- that a history of the container's own operations reaches from the empty one, with a fresh id at
-- each start of a group. So all that is stated of such histories holds of the server. A run hands
-- over no frame of a socket that was ended or closed, and draws only group ids that no group has.
pub Run-Reach : (env : Env) {gone : List ℕ} {w : World} → Run env gone w → Reach w.group_container
Run-Reach env boot = here
Run-Reach env (opened {w = w} ws pointer r) =
    rw (on_open-Grows w ws (to_string pointer)).1.groups (Run-Reach env r)
Run-Reach env (received {w = w} now ws msg op not_ended not_gone fresh r) =
    (on_message-IsSound Reach (λ c d s r. next r s) env now w ws msg op fresh
      (record { container = Run-Reach env r })).0.container
Run-Reach env (closed {w = w} now ws r) =
    (on_close-IsSound Reach (λ c d s r. next r s) env now w ws
      (record { container = Run-Reach env r })).container
