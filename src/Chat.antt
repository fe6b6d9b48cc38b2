-- ===== src/Chat.antt =====
-- ChatLibrary.h and ChatLibrary.cpp: the message types, the text protocol and the binary frame.
pub mod CmdType
pub mod Message
pub mod Find
pub mod RoundTrip
pub mod Raw
pub mod RawSafety
pub mod RawRefused
pub mod Split
pub mod NewId
