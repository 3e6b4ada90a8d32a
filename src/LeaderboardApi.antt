-- ===== src/LeaderboardApi.antt =====
-- cmd/leaderboard_api/main.go: the parameters of its requests, and the handlers of the leaderboard,
-- of the history and of the statistics of a run.
pub mod Parameters
pub mod Handlers
pub mod Applied
pub mod Shown
pub mod EventReader
pub mod Stream
pub mod Proxy
pub mod RunShown
