-- ===== src/Messages.antt =====
-- Conversations and their messages (backend/app/services/message_service.py and
-- message_filter_service.py).
pub mod Filter
pub mod Sending
pub mod Starting
pub mod Threads
pub mod Calls
pub mod Violations
pub mod Announcing
pub mod Gates
pub mod Openings
pub mod Escalation
pub mod Bypass
pub mod Counting
pub mod Reading
pub mod Counters
pub mod Posting
pub mod Beginning
pub mod Unread
mod Tests
