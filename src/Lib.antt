-- ===== src/Lib.antt =====
-- A model of MaintainPro's backend (an Express and MongoDB application) and its correctness.
--
-- Shared holds what the parts share: tests, lists, integers, results with the exceptions of
-- src/shared/errors, and the documents of a collection. Shared.Mongo takes the document database as
-- a parameter: its operations, and as laws what its documentation says of a single-document read,
-- update, upsert and insert and of a transaction.
--
-- Inventory models src/modules/inventory/inventory.repository.ts. A Store is the three collections
-- that an operation writes: balances, reservations and the ledger of transactions. Model has the
-- documents, Balances the single-document operations (ensureBalance, decreaseAvailable, ...), Atomic
-- the bodies of receiveAtomic, reserveAtomic, issueAtomic, releaseAtomic, adjustAtomic,
-- consumeSourceAtomic, returnAtomic and transferAtomic, Ledger the aggregation of reconcile, and
-- Operations runs a body under withTransaction. Quantities are whole numbers, which the doubles of
-- the program add exactly up to 2 ^ 53; the schemas admit fractions, whose sums are rounded, and those
-- are not modelled. The identifiers that the database makes up are arguments, fresh where a theorem
-- needs it. Dates are not modelled, nor are
-- concurrent transactions: the database serializes them. The methods have no loop of their own, so
-- that no fuel is needed.
--
-- Inventory.Service models the stock operations of src/modules/inventory/inventory.service.ts over
-- that repository: receive, reserve, release, issue, adjust, transfer and returnStock, with
-- `context` and the role checks, the answer to a repeated idempotency key before and after the
-- transaction, the exceptions they throw and the facts they publish. A step is a function of the
-- World (the store, the items, the locations, the work orders and the published facts) to a result
-- and a World. Publishing is taken to succeed. Handled and Access state what holds of every request.
--
-- WorkOrders models the actions of src/modules/work-orders/work-order.service.ts on one work order:
-- archive, updateProgress, transition, assign, approveCompletion, rejectCompletion and
-- requestInformation, with get, the checks of roles and saveWithOutbox. A state is the collections
-- of work orders, users, facilities and outbox facts (Office); an action returns the work order and
-- the new state, or the exception. A query that selects fields leaves the others out. `save`
-- replaces the document that was read: actions follow one another. The query of a vendor's actor
-- populates the facility, and the event then has the document's text. Stages has the life of a work
-- order as a table of steps, Transitions the moves of the assigned technician.
--
-- Cache models the local store of src/shared/services/redis.service.ts, which stands in for Redis
-- where the connection is disabled: a list of keys and entries, with the time given to each
-- operation. Interface is what the clients take, a record of operations and of what they promise of
-- later reads; the local store fills it. Commands and Refinement state the map with expiry that the
-- store implements. Texts are lists of code points, and `Number` reads texts of digits.
--
-- Identity models src/modules/identity/otp/otp.service.ts and
-- src/modules/identity/verification-link/verification-link.service.ts over that interface. The hash,
-- the code and the token that are drawn are arguments; the steps of one operation read one time.
-- RateLimit models src/shared/services/rate-limit.service.ts, both ways to count.
--
-- Events models the outbox (src/infrastructure/events/outbox/outbox-event.repository.ts, and runOnce
-- of outbox-event.worker.ts) and src/infrastructure/events/idempotency/processed-event.repository.ts.
-- Claims and Handling take the steps of several relays and consumers in any order, Leases and
-- Granting state what holds of them; the queue is an argument.
--
-- Money models src/shared/money/money.ts. Floating has the division in 53 bits and `toFixed`; its
-- shift has fuel 64, and a positive amount up to 2 ^ 53 divided by a hundred needs at most 59.
--
-- LocalQueue models src/infrastructure/local-queue/local-task-queue.ts: the queues that enqueued and
-- finished tasks lead to. Recurrence models
-- src/modules/preventive-maintenance/pm.recurrence.ts over a calendar that is an argument; the loop
-- has one unit of fuel for each day up to the last. Schedule has what a recurrence asks for, as
-- equations on days, months and years.
--
-- Billing models src/modules/billing/billing.policy.ts and, of billing.service.ts, the methods that
-- change a subscription and handleWebhook. Books are the subscriptions, the payments, what was
-- published and the outbox; an event of a payment provider is given as it was read. Webhooks states
-- what a second delivery does.
--
-- Not modelled: HTTP routes, validation schemas, the administration of items, categories
-- and locations, the calls of a Redis server, and the other modules of src/modules.
pub mod Shared
pub mod Inventory
pub mod WorkOrders
pub mod Cache
pub mod Identity
pub mod Events
pub mod Money
pub mod LocalQueue
pub mod Recurrence
pub mod Billing
