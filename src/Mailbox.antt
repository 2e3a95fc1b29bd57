-- ===== src/Mailbox.antt =====
-- internal/mailbox: the messages of an agent's spool and the spool itself.
pub mod Sanitize
pub mod Message
pub mod Reader
pub mod Parse
pub mod Spool
