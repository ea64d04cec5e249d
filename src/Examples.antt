-- ===== src/Examples.antt =====
-- The theorems of the other modules at concrete inputs.
mod Sorting
mod Listing
mod Runs
mod Wire
mod Cache
mod Requests
mod Codecs
mod Storage
mod Sending
mod Apps
mod Receipts
mod Delivery
mod Images
mod Locks
