-- ===== src/Tests.antt =====
-- The theorems at concrete inputs, and runs of the models.
mod Publications
mod Limits
mod Notices
mod Chats
mod Ids
mod Shops
mod Caching
mod Presences
mod Routes
