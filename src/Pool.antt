-- ===== src/Pool.antt =====
-- The pool of a daemon: which node runs a part of a chunk (src/internal/daemonapi/pool*.go).
pub mod Book
pub mod Gate
pub mod Choice
pub mod Peers
pub mod Routes
pub mod Rates
pub mod Window
