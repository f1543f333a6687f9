-- ===== src/Tests.antt =====
-- Services in memory that meet what the handlers rely on, and the theorems at concrete inputs.
mod Sorting
mod Memory
mod Setup
mod Keys
mod Uploads
mod Interleaving
mod Stranded
mod Requests
mod Updates
mod Objects
mod Settings
mod Routing
mod Shutdown
mod Building
mod Playback
mod Listings
mod Settled
