-- ===== src/Lib.antt =====
-- A model of the XRPL registrar, a filtered archive of the XRP ledger: it reads the history of
-- tracked issuances from Clio servers, keeps it in Postgres, derives balances, and answers the
-- Clio-compatible read API from what it holds.
--
-- The parts, and how they interact:
--   * clio (src/clio): every request goes upstream through one client. The governor bounds how
--     many are in flight and holds all of them back after a load signal; the client classifies
--     what failed, penalizes or rewards the governor, and retries.
--     Clio/Governor.antt is governor.ts (acquire is take_slot followed by confirm_slot, the
--     function it returns is release_once), Clio/Classify.antt is classify.ts, Clio/Client.antt is
--     client.ts with the records of types.ts and errors.ts.
--   * backfill (src/backfill): an account's history is fetched page by page. Backfill/Pages.antt
--     is pages.ts, Backfill/Worker.antt is runJob of worker.ts, Backfill/MapEntry.antt is
--     mapEntry.ts. Backfill/Sweep.antt is issuerSweep.ts, which reads an issuer's history once for
--     all its holders, and Backfill/Holders.antt the bounds and claims of those holders.
--   * db (src/db/repositories): Db/Transactions.antt is transactions.ts, Db/Chunks.antt its
--     insertChunked, Db/Jobs.antt is backfillJobs.ts, Db/Issuances.antt is issuances.ts;
--     Db/Batches.antt compares the two inserts. Db/Migrate.antt is src/db/migrate.ts.
--   * livetail (src/livetail): LiveTail/GapTracker.antt is gapTracker.ts, LiveTail/Tail.antt the
--     loop of liveTail.ts, which feeds it, takes in transactions and hands gaps on to be healed.
--     LiveTail/GapFill.antt heals them, and LiveTail/Scope.antt, of issuanceScope.ts and affected.ts,
--     chooses the accounts that a transaction is recorded for.
--   * discovery (src/discovery): Discovery/Entries.antt is what the scans read of an entry,
--     Discovery/Pages.antt is accountTx.ts and accountLines.ts, which page through a history,
--     Discovery/Scans.antt is authScan.ts and trustlineScan.ts, Discovery/Traversal.antt is
--     traversal.ts, which walks the graph of transfers from the issuer, and Discovery/Discover.antt
--     is discover.ts, which chooses one and checks it. Discovery/Earliest.antt is what fields.ts,
--     resolve.ts and src/db/repositories/accounts.ts do with the accounts that are found.
--   * reconcile (src/reconcile) and api/state: balances are derived twice, as sums of deltas
--     (Reconcile/MptDeltas.antt is mptDeltas.ts, Reconcile/Iou.antt is iou.ts;
--     Reconcile/Incremental.antt derives those of one transaction and Reconcile/Deriver.antt, which
--     is deriver.ts, those of an issuance, Reconcile/BalanceDeltas.antt is the table they are in) and from the latest state of each ledger object
--     (State/Reconstruct.antt and State/Views.antt are
--     reconstruct.ts); Reconcile/Reconciler.antt is reconciler.ts, which compares the two. Meta.antt
--     and Json.antt are the metadata and the fields that they read.
--   * api (src/api): Api/Handler.antt is handler.ts, Api/Responses.antt is errors.ts, warnings.ts
--     and types.ts, Api/Coverage.antt is the coverage check of methods/gatewayBalances.ts and
--     Api/GatewayBalances.antt the rest of it,
--     Api/LedgerTime.antt is ledgerTime.ts with src/db/repositories/ledgers.ts.
--     The read methods are Api/AccountTx.antt, Api/Tx.antt, Api/AccountState.antt and
--     Api/MptHolders.antt, over the queries of Api/Scope.antt, and Api/Reporting.antt, which is
--     methods/reporting.ts.
--   * admin (src/admin): Admin/Status.antt and Admin/Deletion.antt are adminApi.ts, the second of
--     them deleteIssuance, Admin/Activity.antt is activity.ts, and Admin/Orchestrator.antt is
--     orchestrator.ts, which sweeps a registered issuance.
--   * config (src/config): Config.antt is loadConfig, with the choice of the database engine.
--   * xrpl (src/xrpl): Xrpl/Hex.antt, Xrpl/Currency.antt and Xrpl/Mpt.antt are the codes of
--     currencies and of MPT issuances.
--   Common.antt and its children are shared helpers; the modules below Tests.antt apply each
--   result at a concrete input.
--
-- How the code is read:
--   * An `unknown` is a JSON tree (Json.Value), numbers in it are integers, and `undefined` is
--     `none`. A bigint is an integer, a ledger index or a time a natural number. A `Map` is a list
--     of pairs in insertion order. Texts are compared by code point, as the ASCII texts of the
--     code are.
--   * A table is a list of rows and a statement a function on it. Clio's answers, the mapping of a
--     binary entry, the derivation of deltas inside the worker and the methods behind the handler
--     are arguments; the mapping and the derivation are taken as such that do not throw. Arguments
--     too is what belongs to libraries: the decimals of big.js, the codec of the ledger's binary
--     format with its hashes and addresses, the printing and reading of numbers, trimming and URLs;
--     what Postgres does with a sum of numerics and with the statements of a migration; and the
--     resolving of a time. The time of a call is an argument.
--   * Concurrency is a sequence of steps: Clio/Governor/Slots.antt runs any list of calls on the
--     governor, Db/Jobs/Keys.antt any list of statements on the jobs; a crash of the worker or of a
--     sweep is a run that ends after some of its pages, since a page is one transaction.
--
-- Fuel and bounds: Api.LedgerTime.search has fuel, and the length of the range is enough, since
-- each round at least halves it. Db.Chunks.chunk_loop has the number of rows as its fuel, and a
-- statement takes at least one. Clio.Client.request_loop descends on the retries that are left.
-- Discovery.Traversal.walk has a round for each account, and the number of accounts is enough, since
-- a round takes an account that was not taken before. The loops over the pages of an answer
-- (Backfill.Worker.run_pages, Backfill.Sweep.sweep_pages with Admin.Orchestrator.ingest_issuance
-- above it, and those of Discovery.Pages) take the number of pages until the crash; running out of
-- it is that crash. A client that follows the markers of account_tx needs at most one page more than
-- there are rows.
--
-- Not modelled: the admin server and its pages, HTTP and socket transports, the database drivers and
-- logging, which only pass data on; the recent transactions and the last reconciliation of the admin
-- API, the worker's loop over an issuance's jobs (runIssuance), and the close times that are fetched
-- ahead.
pub mod Admin
pub mod Api
pub mod Backfill
pub mod Clio
pub mod Common
pub mod Config
pub mod Db
pub mod Discovery
pub mod Json
pub mod LiveTail
pub mod Meta
pub mod Reconcile
pub mod State
pub mod Tests
pub mod Xrpl
