-- ===== src/Tickets.antt =====
-- The life of a ticket: shared/tickets_store.py and handlers/domains/tickets_dynamo.py.
pub mod Item
pub mod Table
pub mod Update
pub mod Choice
pub mod Claims
pub mod Workflow
pub mod Edit
pub mod Deletion
pub mod Guards
pub mod Handlers
pub mod Sample
pub mod Authority
pub mod Sends
pub mod Resumption
pub mod Preview
pub mod Indexed
pub mod Automation
pub mod Assessment
mod Tests
mod SyncTests
