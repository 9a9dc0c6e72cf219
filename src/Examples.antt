-- ===== src/Examples.antt =====
-- The theorems at concrete inputs.
mod Headers
mod Fetches
mod Files
mod Drains
mod Clients
mod Bodies
mod Texts
mod Routes
mod Streams
mod Calls
