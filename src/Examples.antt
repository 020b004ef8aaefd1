-- ===== src/Examples.antt =====
-- The theorems at concrete inputs.
mod Tracker
mod Sessions
mod Queues
mod Alerts
mod Starts
mod Rooms
mod Bytes
mod Connections
mod Files
mod Messages
mod Posts
mod Histories
