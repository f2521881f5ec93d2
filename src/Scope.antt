-- ===== src/Scope.antt =====
-- packages/adopt-scope: slugs, the hierarchy of scopes, and the lifecycle of systems.
pub mod Slugs
pub mod Statements
pub mod Lifecycle
pub mod Hierarchy
pub mod Events
pub mod Insertion
pub mod Refusals
pub mod Answers
pub mod Silent
pub mod Steps
pub mod Reach
pub mod Newlines
pub mod Paths
pub mod Segments
pub mod Renders
pub mod Grammar
mod Samples
