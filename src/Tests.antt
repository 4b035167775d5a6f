-- ===== src/Tests.antt =====
-- The theorems at concrete data, a module for each part.
pub mod Streams
pub mod Failures
pub mod Conversations
pub mod Events
pub mod States
pub mod Caches
pub mod Requests
pub mod Responses
pub mod Trimming
pub mod Network
pub mod Tokens
pub mod Printing
pub mod Payloads
pub mod Frames
pub mod Listing
