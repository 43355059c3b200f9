-- ===== src/Identity.antt =====
-- internal/identity: the identities of a workspace. This part of the model has the DIDs, the handles,
-- the names and the index of identities.
mod Tests
pub mod Did
pub mod Handle
pub mod Names
pub mod Index
