-- ===== src/Approvals.antt =====
-- internal/approvals/queue.go: the queue of held requests. Holds and channels stand on a store, as
-- pointers to a hold are shared by the two indexes; a call of an operation is one step, since every
-- operation runs under the queue's lock up to its last access of the shared state.
pub mod Store
pub mod Enqueue
pub mod Resolve
pub mod Invariant
pub mod Steps
pub mod Outcome
pub mod Wait
pub mod Capacity
