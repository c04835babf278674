-- ===== src/Storage/PubSub.antt =====
-- internal/storage/pubsub.go.
pub mod Trie
pub mod Candidates
pub mod Patterns
pub mod Contents
pub mod Lookup
pub mod Topics
pub mod State
pub mod Index
pub mod Sessions
pub mod Calls
pub mod Runs
mod Tests
