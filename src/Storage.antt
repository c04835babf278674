-- ===== src/Storage.antt =====
-- internal/storage: the keyspace and the operations on strings, hashes, sets and lists.
pub mod Linked
pub mod Store
pub mod Seconds
pub mod Strings
pub mod Scan
pub mod Hashes
pub mod Sets
pub mod Lists
pub mod Combine
pub mod Bitmaps
pub mod PubSub
pub mod Expiry
pub mod Schedule
pub mod Operations
pub mod Counters
pub mod Keeps
pub mod Snapshot
pub mod Membership
pub mod Adding
pub mod Removing
pub mod Fields
mod Tests
