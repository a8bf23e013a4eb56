-- ===== src/Handlers.antt =====
-- internal/handlers: the API that changes the rules and applies them (`Recompile`, `Requests`,
-- `Controls`), what it reports (`Reads`, `Views`) and its table (`Routes`), all of handlers.go, and the
-- limits on requests (`Limiter`, middleware.go).
pub mod Limiter
pub mod Daemon
pub mod Recompile
pub mod Requests
pub mod Published
pub mod Answers
pub mod Bound
pub mod Runs
pub mod Peers
pub mod Reads
pub mod Routes
pub mod Views
pub mod Audits
pub mod Controls
