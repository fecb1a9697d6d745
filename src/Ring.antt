-- ===== src/Ring.antt =====
-- The ring of a distributed training run, kept by the first rank's daemon: its payloads and rounds, its
-- ranks that go down and join, and how it shares the work out (ddpreduce.go, ddpboard.go, ddpsync.go,
-- ddprequest.go, ddpdown.go, ddpup.go, ddprebalance.go, ddppacing.go and ddplocal.go of src/internal/daemonapi).
pub mod Half
pub mod Sum
pub mod Mean
pub mod Sizes
pub mod Ranks
pub mod Run
pub mod Down
pub mod Notes
pub mod Plan
pub mod Fair
pub mod Fixed
pub mod Round
pub mod Sync
pub mod Patience
pub mod Reply
pub mod Answers
pub mod Events
pub mod Waiters
pub mod Closing
pub mod Joining
pub mod Board
pub mod Local
pub mod Forwards
pub mod Replies
