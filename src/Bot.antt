-- ===== src/Bot.antt =====
-- Chatter.cpp and uDaraChatBot.cpp: what a chat bot says, and how the server reads it.
pub mod Chatter
pub mod Frames
pub mod Reply
pub mod Control
pub mod Loop
pub mod Options
pub mod Conversation
pub mod Startup
pub mod Commands
pub mod Cycle
