-- ===== src/Notify.antt =====
-- Notifications: the canonical events, the ledger that makes their delivery happen once, the inbox
-- of a user and the worker behind the queue.
pub mod Events
pub mod Normal
pub mod Accepted
pub mod RoundTrip
pub mod Drafts
pub mod Builders
pub mod StatusEvents
pub mod Creator
pub mod Ledger
pub mod Claims
pub mod LedgerLock
pub mod Reopen
pub mod LedgerOnce
pub mod Inbox
pub mod InboxState
pub mod InboxHistory
pub mod Sending
pub mod Tally
pub mod Worker
pub mod Process
pub mod Releases
pub mod Retry
pub mod Summary
pub mod Tests
pub mod WorkerTests
