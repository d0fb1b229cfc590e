-- ===== src/Lib.antt =====
-- HOMI v3, the operating system for shared living: the money of a house of roommates.
--
-- The program. packages/domain holds the pure money functions: computeSplits divides an expense,
-- divideRoomWeight a room's weight, and computeBalances says who owes whom. packages/ledger/src/
-- posting.ts resolves a request to splits among active members and writes expenses; the API and the
-- worker share it. apps/api serves the mutations: each runs in one transaction of
-- ActivityService.transact, which writes events to the feed and announces them after the commit, and
-- the mutations of money run under withIdempotency, so that a retry replays the stored response.
-- LedgerService creates and edits expenses, and records, disputes and resolves payments;
-- InvitesService lets people join a house and claim a placeholder's history. packages/db has the
-- tables. packages/domain/src/bills/schedule.ts says when a bill is due, BillsService keeps the bills,
-- and apps/worker posts an expense for each period of a bill that is due.
--
-- The files.
--   Prelude            Boolean tests, lists, integers, dictionaries and results over native numbers.
--   Money/Split        packages/domain/src/money/split.ts, one function for each loop and each branch;
--                      Form, Modes, Fair and Total are the laws.
--   Money/Rooms        packages/domain/src/money/rooms.ts.
--   Money/Balances     packages/domain/src/money/balances.ts; Pairs has the laws of its map of pairs,
--                      Net, Pairwise and Minimal those of the results.
--   Db                 packages/db/src/schema: the rows, the tables as a record, and the errors.
--   Activity           apps/api/src/activity/activity.service.ts: a transaction is a function from
--                      the tables to an error, or to a value and new tables; a call that fails
--                      returns no tables, as a rollback does. Laws, Hoare and Unrelated are the
--                      rules for what a transaction keeps and ensures.
--   Idempotency        apps/api/src/lib/idempotency.ts; an argument called `meanwhile` is what other
--                      requests commit between the lookup and the execution.
--   Posting            packages/ledger/src/posting.ts.
--   Ledger             apps/api/src/ledger: Expenses and Payments are the mutations of
--                      ledger.service.ts, Reading its getBalances and Feed its getLedger;
--                      Cursor is apps/api/src/lib/cursor.ts with UUID_RE of validation.ts; Books is the
--                      invariant of the expenses, Periods that of the bills they are for, and History
--                      the worlds that requests and runs of the worker reach.
--   Houses             apps/api/src/houses and apps/api/src/auth/house-role.ts: Invites and Claim
--                      are invites.service.ts, Rooms and Members their services, Service
--                      is houses.service.ts, and Snapshot the reads of snapshot.service.ts.
--   Bills              Calendar is the part of the language's Date that the code uses; Fields, Iso and
--                      Schedule are packages/domain/src/bills/schedule.ts, Service is
--                      apps/api/src/ledger/bills.service.ts, and Worker apps/worker/src/bills/
--                      post-due-bills.ts, where `meanwhile` is what others commit before each of
--                      its transactions. Ledger/History/Runs relates a run of the worker to the
--                      history.
--   Mobile             apps/mobile/src: Amount is ui/amount.ts, Preview expenses/split-preview.ts.
--   RateLimit          apps/api/src/ratelimit/rate-limiter.ts, the limiter in memory.
--   Prune              apps/worker/src/prune/prune-idempotency-keys.ts; its loop has a number of passes
--                      as fuel, and Done says how many are enough.
--   */Examples         the theorems at concrete inputs.
--
-- Conventions. An id is a number, as a UUID is; text that is compared by code is a string or a list
-- of character codes; times are milliseconds. A table is the list of its rows. The clock, a random id
-- and the hash of a request are arguments, and so are Intl.DateTimeFormat and, as the record Platform of
-- Ledger/Cursor, JSON, base64url, Date and the text of a UUID. Loops are recursion on a
-- list or on the rounds left, three months, seven days and 24 periods as in the source; only the loop
-- of Prune has no bound of its own. Amounts are exact numbers here and doubles in the source. The two
-- agree where the products of cents and basis points are below 2^53, that is for totals of at most
-- 900719925474 cents, and the API accepts at most 10^10; the theorem on the shares of computeSplits has
-- this bound for the modes with weights. Above it a share of the source may be a cent more or less.
--
-- Not modelled. Row locks, since a transaction runs alone here: its interleavings are the orders of
-- whole transactions, and the gap in withIdempotency. Controllers and their schemas, authentication,
-- the realtime gateway, Redis, email, the mobile screens and the API client: input, output and calls of
-- libraries. The limiter on Redis is a script of that server. The events have no time here, so the head
-- of the feed in the snapshot has no model. Pruning is modelled without what others commit between its
-- passes.
pub mod Prelude
pub mod Money
pub mod Db
pub mod Activity
pub mod Idempotency
pub mod Posting
pub mod Ledger
pub mod Houses
pub mod Bills
pub mod Mobile
pub mod RateLimit
pub mod Prune
