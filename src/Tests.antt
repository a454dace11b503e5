-- ===== src/Tests.antt =====
-- The theorems at concrete inputs, and a few runs of the model.
mod Storage
mod Wire
mod Builder
mod Screen
mod Controls
mod Documents
mod Placement
mod Scripts
mod Messages
mod Sessions
