-- ===== src/Server.antt =====
-- uDaraChatServer.cpp: connections, topic slots, and the handlers of socket events.
pub mod State
pub mod Topics
pub mod Groups
pub mod Hearing
pub mod Snapshot
pub mod Tally
pub mod Events
pub mod Slots
pub mod Gate
pub mod Acts
pub mod Conduct
pub mod Speech
pub mod Integrity
pub mod Sessions
pub mod Delivery
pub mod Keeps
pub mod Membership
pub mod GroupIds
pub mod Roster
pub mod Grows
pub mod Consistent
pub mod Closing
pub mod Entering
pub mod Entered
pub mod History
pub mod GroupTalk
pub mod Accepting
pub mod Guarded
pub mod Subscribing
pub mod GroupPrivacy
pub mod Opening
pub mod FramePrivacy
pub mod LoginPrivacy
pub mod Privacy
pub mod Listening
pub mod Reached
pub mod Attendance
pub mod Authenticated
pub mod Presence
pub mod Channels
pub mod Counts
pub mod Startup
pub mod Address
pub mod AddressRoundTrip
