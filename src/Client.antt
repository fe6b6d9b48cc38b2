-- ===== src/Client.antt =====
-- client/uDaraClient.cc: the command line client.
pub mod Talk
pub mod Rounds
pub mod Refused
