-- ===== src/Listener.antt =====
-- internal/runtime/listener/server.go: this part of the model has the loop that keeps the connection of
-- an identity.
mod Tests
pub mod Session
