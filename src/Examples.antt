-- ===== src/Examples.antt =====
-- Concrete inputs for the theorems, and tests of the definitions on them.
mod Logs
mod Elections
mod Trees
mod Breakers
mod Caches
mod Restarts
mod Files
mod Policies
mod Messages
mod Requests
mod Fetches
mod Notaries
mod Transfers
mod Images
mod Visitors
mod Documents
