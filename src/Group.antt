-- ===== src/Group.antt =====
-- GroupContainer.h and GroupContainer.cpp: who is in which group, and who has invited whom.
pub mod Types
pub mod Info
pub mod Container
pub mod Invites
pub mod Wire
pub mod Count
pub mod Crowds
pub mod Query
pub mod Leader
pub mod NewId
pub mod Answers
pub mod Invariant
pub mod Steps
pub mod Reach
pub mod Lookup
pub mod Joining
pub mod Leaving
pub mod Inviting
pub mod Switching
pub mod WireRoundTrip
pub mod Names
pub mod Rooms
pub mod Spec
pub mod SelfTest
pub mod SelfTestPasses
pub mod Presence
pub mod Prefixed
