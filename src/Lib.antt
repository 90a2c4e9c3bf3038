-- ===== src/Lib.antt =====
-- Verification library of the XOC backend: the life of a ticket, the risk governance that decides
-- who may approve what, the gateway through which agents use tools, and the notifications.
--
-- The program. Tickets lie in a DynamoDB table (src/shared/tickets_store.py). The endpoints of
-- src/handlers/domains/tickets_dynamo.py create, edit and delete them and take the decisions on the
-- plans that an agent proposes: a decision resumes a Step Functions workflow with a task token and
-- then records itself by a conditional write. Which role may decide comes from
-- src/shared/risk_config.py, which rates plans by what their steps declare and by what their
-- commands show. Agents read tickets, documents and notifications through src/tool_gateway, whose
-- policy resolves the tenant from the authenticated context only. What happens to tickets is told by
-- events on a bus; a worker behind a queue (src/handlers/workers/notification_events.py) takes each
-- event once, by a ledger in a table, keeps it for its recipient and sends it to devices. A plan that
-- was carried out can be undone by a plan that src/remediation/rollback.py builds.
--
-- The files.
--   Base: results and exceptions (src/shared/errors.py), handlers over a state, JSON values with
--     Python's truth value, text methods and decimal numbers.
--   Risk: src/shared/risk_config.py. Levels has the tables, Pattern the regular expressions,
--     Command infer_risk_from_command, Plan resolve_step_risk_level, compute_max_risk_level and
--     approval_requirement; Order, Inference and Governance have the theorems.
--   Tickets: Item, Update and Choice are the parts of src/shared/tickets_store.py; Table is the
--     interface to DynamoDB, Step Functions and the event bus, with
--     src/notifications/tickets.py; Claims, Workflow, Edit, Guards and Handlers are
--     src/handlers/domains/tickets_dynamo.py, Automation is src/shared/ticket_automation_sync.py.
--     Authority, Sends, Resumption, Preview, Deletion, Assessment and Indexed have the theorems;
--     Sample is a table that meets the laws.
--   Gateway: src/tool_gateway, a file per module of it: Schemas, Registry, Policy, Executor with
--     audit.py, Tools for the handlers of executor.py, and Pages for the page loop of
--     agentcore_providers.py. Authorized, Execution and Isolation have the theorems.
--   Access: Request is the part of src/shared/dependencies.py that reads the claims of a request,
--     Roles the role checks of src/shared/context.py; Tenancy has the theorems.
--   Notify: Events is the validation of src/notifications/events.py, Drafts and Builders are its
--     builders; Ledger is src/notifications/inbox.py, Inbox the writes of
--     src/shared/user_notification_inbox.py; Sending, Worker and Process are
--     src/handlers/workers/notification_events.py with src/shared/notification_campaigns.py.
--     LedgerLock, LedgerOnce, InboxHistory, RoundTrip, Creator, Retry and Summary have the theorems.
--   Remediation: Rollback is src/remediation/rollback.py; Compensation has the theorem.
--
-- How it is modelled. A handler is a function from a world to an answer or an exception and the
-- next world: what was written before an exception stays written. The table of tickets is a
-- parameter with the laws of a consistent read; the index TicketLookupIndex is a read of which
-- nothing is assumed. Step Functions may refuse a token, and when it accepts one the workflow runs
-- on and gives the table that the handler meets next, so that the conditional writes are seen to
-- race with it. The tables of notifications are a record of operations with the law of a write,
-- and their reads without ConsistentRead may give anything, which covers what other workers do
-- between such a read and the conditional write behind it. The clock, the new ids, the agent that
-- writes plans, SHA-256, the equality of dictionary keys, the stores behind the gateway, what
-- finds the devices of an audience and what sends one message are parameters. JSON values hold
-- natural numbers; a negative or broken number is kept by its text. Ids are natural numbers. Case
-- mapping is that of ASCII letters. The bounds are the 20 rounds of the page loop, which is the
-- source's own, and the steps in which the batches of devices are cut: as many as there are
-- devices, which is enough because a batch has at least one. Everything else is structural
-- recursion.
--
-- What is not modelled. Log lines, what a push to a device holds, the listings of tickets, the
-- queries of the notifications, the reports, the integrations, the relational store, the workers of
-- the workflow and the chat: they are I/O, or are left to other modules of the library. Of the errors
-- of DynamoDB only the failed condition is modelled, and in the worker of the events that a write
-- which completes or fails an event raises; such a write leaves the table as it was.
pub mod Base
pub mod Risk
pub mod Tickets
pub mod Gateway
pub mod Access
pub mod Notify
pub mod Remediation
