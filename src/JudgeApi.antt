-- ===== src/JudgeApi.antt =====
-- cmd/judge_api/main.go: the identifiers that it accepts, the requests for a submission, the queue
-- between the handlers and the worker, and the cross-origin headers.
pub mod Ids
pub mod Submissions
pub mod Queue
pub mod Cors
pub mod Handlers
