-- ===== src/Approvals/Wait.antt =====
-- internal/approvals/queue.go: Wait, one call of which is a choice among three events and what the
-- caller does after it.
pub mod Awaited
pub mod Drains
pub mod Others
pub mod Returns
use trollbridge.Prelude.{ℕ, ◌≡◌, Option, none, some}
use trollbridge.Text.{Text}
use trollbridge.Types.{Decision}
use trollbridge.Approvals.Store.{Channel, Queue}
use trollbridge.Approvals.Resolve.{time_out, cancel_waiter, disconnected, receive}

-- The case of the select that is taken: the channel, the timer or the end of the client's context.
pub data WaitEvent : Type 0 where
  answered timer client_gone : WaitEvent

-- `none`: the receive blocks, as the channel is empty.
unfoldable pub wait : (ℕ → Text) → WaitEvent → Text → Channel → Queue → Option (Decision × Queue)
wait shown WaitEvent.answered id c q = receive c q
wait shown WaitEvent.timer id c q =
    let (won, q') = time_out shown id q in elim won [ none ↦ receive c q' | some d ↦ some (d, q') ]
wait shown WaitEvent.client_gone id c q =
    let (left, q') = cancel_waiter id c q in
    elim left [ none ↦ receive c q' | some _ ↦ some (disconnected, q') ]
