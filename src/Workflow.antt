-- ===== src/Workflow.antt =====
-- packages/adopt-workflow: the retry policy, the journal, and the steps of the in-process backend.
pub mod Api
pub mod Retries
pub mod Journal
pub mod Torn
pub mod Steps
pub mod Replay
pub mod Schedule
pub mod Bodies
pub mod Client
pub mod Quiet
pub mod Resume
pub mod Adds
pub mod Arguments
pub mod Written
pub mod Settling
pub mod Recovery
pub mod Starts
mod Values
mod Samples
mod SampleRuns
