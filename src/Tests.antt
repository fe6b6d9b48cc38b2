-- ===== src/Tests.antt =====
-- Runs of the definitions on concrete inputs, and the theorems applied to such inputs.
mod Groups
mod Messages
mod Logins
mod Sockets
mod Runs
mod Listeners
mod Snapshots
mod Startups
mod Addresses
mod Clients
mod Invites
mod SelfTests
mod Bots
