-- ===== src/Lib.antt =====
-- A verification library of the gateway of catfee.io: a gRPC proxy before a TRON node that sponsors the
-- energy and bandwidth of the transactions of registered addresses, and rents energy from external
-- providers where its own stake does not reach.
--
-- The parts of the program. A broadcast arrives at the gRPC gateway (src/grpc/), is inspected, and goes
-- to the broadcast processor (src/broadcast-processor.ts). It takes the quota of the address and a claim
-- on it, has the resource service (src/resource-service.ts) estimate and supply the resources, forwards
-- the transaction, and records the outcome. Workers (src/workers.ts) follow the transaction to its
-- finality, and take the leased resources back. All of them keep their state in one PostgreSQL database,
-- through the two repositories: the limits and counters of the addresses, the life of each transaction,
-- the claims and leases that it holds, and the orders at the providers with their daily budget.
--
-- What is modelled, and where.
--   Table         tables as lists of rows, and the statements on them (UPDATE, DELETE, INSERT, EXISTS,
--                 SELECT, SUM and COUNT); Table.Laws has their lemmas
--   ResourceMath  src/resource-math.ts: safety margins, stakes, bandwidth payment
--   Store         the rows of the database that the repositories read and write
--   Link          what becomes of a call of a repository: answered, or lost before or after its commit
--   Gateway       `GatewayRepository` of src/repository.ts: Bindings, Requests, Claims, Leases, Audits and
--                 Quota hold the methods by the table that they change, Receipts the summary of a receipt; Accounting is about the counters
--                 of the bindings, Exclusion about the claims, Audits.Checks and Audits.Arrivals about
--                 the audit rows
--   Providers     `EnergyProviderRepository` of src/providers/repository.ts: Limits, Orders and Settle hold
--                 the methods; Budget, Matching, Steps and Reach are about the ledger and the orders
--   Service       `orderEnergy` of src/providers/service.ts: the loop over the providers, on the operations
--                 of Providers, and, in Quote, the quote of the least package; Rentals is about the rentals that the
--                 loop makes, Quotes about the quote, Framed about the tables that it leaves alone
--   Failures      what the resource service and the processor throw: `GatewayError` of src/domain.ts
--   Resources     `ResourceService` of src/resource-service.ts: the guards; Requirements, Survey, Rental with
--                 Package, Leasing, Release and Prepare hold the estimate, the guards before an order, the
--                 order with the wait for its energy, the delegation of a lease, its release, and `prepare`;
--                 World has what a run asks of its surroundings; Keys is about the owner's permission,
--                 Rental.Following, Rental.Reviewed, Rental.Affordable, Rental.Delivery and Rental.Charges about the rental, Release.Announced
--                 and Release.Framed about the release, Prepare.Readiness and Prepare.Stability about
--                 `prepare`
--   Broadcast     `BroadcastProcessor` of src/broadcast-processor.ts: its configuration and the check of the
--                 transport; Guards and Answers hold the other guards and the local answers, Sponsor with
--                 Caught and Whole `sponsorAndForward`, Handle `handle`; Lifetime is about the guard on the
--                 expiration, Open, Charged, EnergyAlone and Retained about what may be charged for, Books and
--                 Refines about the repository calls of a run
--   Inspector     `inspectSignedTransaction` of src/grpc/transaction-inspector.ts: Signature, Contents and
--                 Inspect hold its parts; Signed is about what passes
--   Workers       one iteration of the confirmation loop and of the reclaim loop of src/workers.ts; Led and
--                 Books are about their repository calls, Decided and Recovery about the stale requests
--   Configuration `loadConfig` of src/config.ts, and what src/index.ts makes of it: Texts and Load hold the
--                 lists and the cross-field checks, Loaded and Accepted are about what is accepted
--   Framing       src/grpc/framing.ts: RoundTrip is about the frame, Scan and Fields about the scan
--   Base          helpers: Boolean tests, lists, texts, the integers of `bigint`, results of calls that may throw,
--                 and in Effects and Triples the runs that change a state and may throw, with the triples
--                 of what holds before and after one
--   Examples      the concrete runs that apply each theorem
--
-- How state and operations correspond. The `Database` record is the database; a method that runs one
-- transaction is one function on it, named as the method is (reserveQuota is `reserve_quota`), which
-- returns the database after it, together with the method's answer. A method that may throw returns a
-- `Result`; its error stands for a rollback, after which the database is the one before the call. NOW(),
-- CURRENT_DATE and Date.now() are the argument `now` or `day`. The transactions lock the rows that they
-- read (FOR UPDATE, or the advisory lock of the provider budget), so that a run of the program is a
-- sequence of such steps: the data types `Step` and `Reach` of Gateway.Accounting.Reach,
-- Gateway.Exclusion, Gateway.Audits.Checks and Providers.Reach say which. The decryption of a provider's
-- key is a parameter of `start_attempt`, `Columns` (what a column of PostgreSQL holds of a text) one of
-- `mark_accepted`, and the `World` (the adapters, their answers, the clock, the connection) one of
-- `order_energy`. The CHECKs on an order's amount and on the length of its attempts are tests of the
-- methods that write them.
--
-- A run of the resource service or of the processor changes a `Session`: the database, the rentals, the
-- delegations and undelegations that it sent, and how often it forwarded the transaction. What the node,
-- the signer, the providers and the clock answer at each place is a field of `Node`, what the codec, the inspector and
-- the upstream answer one of `Wire`. The inspector is a parameter of the processor's `Wire` and a
-- function of its own in Inspector, where what it calls of protobufjs, ethers and node:crypto is `Codec`;
-- `Watch` holds the answers of one iteration of the workers. Each call of a repository goes through `call`, where `Node.link`
-- says whether it is answered, or the connection breaks before or after the commit; inside orderEnergy it
-- goes through `reached`, where `World.link` says so of each of its calls (`OrderSite`); a throw that the
-- source swallows ("best effort") is `ignore`, and a catch block is `attempt`. The variables of
-- sponsorAndForward are the fields of `Progress`. Calls that the source makes at the same time are made one
-- after the other; the runs of other transactions between two calls are left out of these two parts,
-- and are what the steps of `Reach` allow for.
--
-- Fuel. The scan of a protobuf message has the length of the message, since each turn passes one byte at
-- least. The wait for the energy of an order has the milliseconds of its timeout and one more, since
-- each turn comes at least a millisecond after the one before. Every other loop is over a list.
--
-- What is not modelled. The streams of the gRPC layer, and protobufjs, ethers and node:crypto, which are
-- parameters of the inspector; the account snapshots of the provider service and its adapter; the HTTP
-- client of the node and the signer; the timers of the workers; the administration server, and the rest
-- of the startup. Of the repositories: the reads of the dashboard, and the creation and the change of
-- providers. Counters and amounts are unbounded numbers, where the database has BIGINT, and which
-- of two faults of one statement PostgreSQL finds first is left open, since no caller tells them apart. Logging is left
-- out.
pub mod Base
pub mod Table
pub mod ResourceMath
pub mod Store
pub mod Link
pub mod Gateway
pub mod Providers
pub mod Framing
pub mod Service
pub mod Failures
pub mod Resources
pub mod Broadcast
pub mod Inspector
pub mod Workers
pub mod Configuration
mod Examples
