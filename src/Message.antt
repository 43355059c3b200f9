-- ===== src/Message.antt =====
-- internal/message: this part of the model has the discovery of the service for attachments.
mod Tests
pub mod Discovery
