-- ===== src/Lib.antt =====
-- Leader Product API: an Express server over a Prisma database. This library models the parts of it
-- that decide who a user is and what the user may do, and those that take a manager's order to 1C,
-- and proves what these parts promise.
--
-- Parts and files. A source path is from the root of the repository, and a directory of child
-- modules stands beside each file.
-- - Base: the library names, tests, lists, counts and texts that the parts share. A text is the list
--   of its code points.
-- - Table: a database table behind the query operations that the services call (findFirst, update,
--   updateMany, create), with the laws they rely on, and a table in memory that meets the laws.
-- - Phone (src/utils/phone.ts): normalisation to eleven digits, the stored number, and how it is
--   printed. In Phone/: Laws on normalisation, RoundTrip between the forms.
-- - Users (src/services/phoneVerificationService.ts): the columns of a user that linking writes, and
--   resolveAuthProvider.
-- - PhoneSession (src/services/phoneVerificationService.ts): sessions that verify a phone. The file
--   itself has startPhoneVerificationSession, getPhoneVerificationSessionState and
--   cancelPhoneVerificationSession, PhoneSession/Telegram and PhoneSession/Max the binding of an
--   account and the verification by a contact. Exits and CallExits say what each call may end in,
--   and the other files prove from them. It uses Phone for the numbers and Users for the linking.
-- - EmailChange (src/services/emailChangeService.ts): sessions that change an email by a mailed code,
--   laid out in the same way; the calls that take a code are in EmailChange/Calls.
-- - QrSession (src/services/messengerQrAuthSessionService.ts): sessions that sign a user in by a QR
--   code: rows and links in the file itself, QrSession/Calls the exported functions, QrSession/Moves
--   the service as a state machine, from which QrSession/Once proves.
-- - ServiceAccess (src/services/serviceAccess.ts, src/middleware/serviceAccess.ts): the rules of four
--   layers and the decision in the file itself, ServiceAccess/RoleChain the walk to parent roles,
--   ServiceAccess/Context resolveUserAccessContext, ServiceAccess/Access the decision for a context
--   with its reasons, ServiceAccess/Calls the exported functions and the middleware, and
--   ServiceAccess/Rows the rules that each of the two queries of services selects from the tables.
-- - Orders (src/modules/clientOrders/clientOrders.service.ts, src/services/clientOrdersExportWorker.ts,
--   src/modules/onec/onec.controllers.ts): the orders of managers on their way to 1C. The rows and the
--   transaction that the calls share are in the file itself. Orders/Manage has the calls of the
--   application (updateClientOrder to cancelClientOrder) with their guards and columns in
--   Orders/Manage/Rows; Orders/Export has the worker (markOrderExportSuccess, markOrderExportFailure,
--   exportOrder, runOnce) with its checks in Orders/Export/Checks; Orders/Ack has handleOrderAck
--   and Orders/Statuses handleOrdersStatusBatch, of which a history has the items one by one;
--   Orders/Mobile has putClientOrderByClientId, whose two looks at the order are one call here.
--   Orders/History puts them together as a state machine; Orders/Edits, Orders/Mutations and
--   Orders/Moves say what each call may write, and Consistent, Outbox, Passed, Revisions and Versions
--   prove from them. Orders/Pushes and Orders/Delivery follow an order through a run of the worker, and
--   Orders/Backoff and Orders/Stock are about its waits and its check of the stock.
-- - Invoices (src/services/clientOrderInvoiceWorker.ts): the claim of an invoice, its delivery over a
--   channel of a bot, where each update after a sending may fail, and the state it ends in.
--   Invoices/Runs has the updates that end a run and the claims and ends of several runs one after
--   the other; Invoices/Once and Invoices/Leases prove from them.
-- - Auth (src/services/authRefreshTokenService.ts, src/routes/auth.ts, src/middleware/auth.ts):
--   Auth/Devices and Auth/Tokens have the devices, and the issue, renewal and revocation of refresh
--   tokens, Auth/History the calls as a state machine, and Auth/Permissions the middleware, which
--   walks over roles as ServiceAccess does.
--
-- State and time. A call of a session service is a function from the database (users and sessions,
-- as lists of rows) to the database after it and the result; an error that the source throws is a
-- value of the result. A call reads the clock once (`now`, in milliseconds), where the source reads
-- it a few times, and runs as a whole: the interleaving of the queries of two calls is not
-- modelled, except where a call works on a row that it has loaded before: the end of a push in
-- Orders/History has the order as the worker loaded it, and the end of a renewal in Auth/History the
-- token as the handler read it, with any calls between. So an edit of an order checks the revision and
-- writes in one call, while the source takes no lock between the two. Histories are step relations
-- (PhoneSession/History, EmailChange/History, QrSession/Once, Orders/Consistent, Orders/Passed,
-- Orders/Versions, Invoices/Runs, Auth/History). A big integer of a messenger account or a phone is a
-- natural number, and a table id is one too, except the textual ids of QrSession and of devices.
--
-- Parameters, with documented behaviour as laws where a proof needs it: the tables, the SHA-256
-- digest, BigInt on a text, lower-casing, the comparison of emails without case by the database, the
-- mail server, and fresh ids and random tokens, which are arguments of a call. In ServiceAccess the
-- queries of users, roles and services are parameters, and a service comes with the rules that its
-- query selects for the user; ServiceAccess/Rows says which these are in each of the two queries.
-- In Orders they are the query of the oldest rows, the answers of 1C and its stock, and the locks;
-- the references and lines of a request come resolved. In Auth they are the signing of tokens and the query of permissions. The
-- ids of orders are natural numbers; quantities are in thousandths, prices in ten-thousandths and
-- stocks in millionths of a unit, none of them negative.
--
-- Bounds. The printing of a number n has fuel n + 1, since each step divides by ten, and the walk to
-- parent roles has one step more than there are stored roles, since it stops at a role seen before.
-- Distances of roles are compared with Number.MAX_SAFE_INTEGER as the source does, and are natural
-- numbers that do not wrap.
--
-- Not modelled: the other routes and middleware, the sending of messages and mail, the Kafka and
-- Redis clients, the catalogue and the rest of the exchange with 1C, the reading of invoices from 1C
-- and their files, the queries of orders for display, the administration of service rules, and the
-- names, texts and payloads that events and explanations carry for display.
mod Base
pub mod Table
pub mod Phone
pub mod Users
pub mod PhoneSession
pub mod EmailChange
pub mod ServiceAccess
pub mod QrSession
pub mod Orders
pub mod Auth
pub mod Invoices
