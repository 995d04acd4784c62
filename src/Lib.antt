-- ===== src/Lib.antt =====
-- The Lido council daemon (src/): a guardian of the deposits of the Lido protocol.
--
-- On a timer the guardian takes a snapshot of the staking modules from the keys API, reads the
-- deposit events of the chain up to the snapshot's block, and looks for deposits that were made with
-- a key that a module has not used yet. Such a deposit, valid and with credentials that are not
-- Lido's, is an attack: the guardian signs a pause, sends the transaction and tells the broker. With
-- no attack it signs the state of the deposits and publishes a deposit message.
--
-- The parts, and the files that model them:
--   Shared        the libraries' names, Boolean tests, lists, integers and texts
--   Outcome       how an async call ends (a value, a rejection, process.exit, or not yet), and
--                 methods as functions on a service's state that keep what was written before a
--                 rejection
--   Provider      src/provider/provider.service.ts: the fetch of events that retries and halves ranges;
--                 Provider/Process has src/provider/provider.module.ts, the timer of the blocks
--   Cache         src/cache/cache.service.ts: a value in memory and in a JSON file, with
--                 Cache/Reading for what a call answers, Cache/Persistence for what a new process reads
--                 and Cache/Invariant for what every operation keeps
--   Decorators    src/common/decorators/: OneAtTime as one call sees it, Decorators/Overlap with calls
--                 that overlap, and Decorators/Cached
--   Di            src/common/di/: interfaces as values
--   Chains        the tables by network of src/contracts/deposit/deposit.constants.ts,
--                 src/messages/messages.constants.ts and
--                 src/contracts/repository/locator/locator.constants.ts
--   DepositEvents, Deposit
--                 src/contracts/deposit/: the event cache and all deposited events. Deposit/Node has
--                 the node that is asked, Deposit/EventCache the invariant of the cache,
--                 Deposit/Progress how far an update gets, Deposit/Startup the start with an invalid
--                 cache, Deposit/AllEvents what is returned, Deposit/History the cache from one cycle to
--                 the next, and Deposit/Signed the marks of the BLS check
--   Contracts     the calls of the generated contract classes, which are parameters
--   Repository    src/contracts/repository/: the cached contracts and message prefixes,
--                 with Repository/Init for what the initialisation leaves and Repository/Waiting for
--                 the attempts at the start
--   KeysApi       src/keys-api/: the replies of the keys service
--   StakingRouter src/staking-router/: the unused keys by module, with Freshness for the keys that a
--                 call gets and Known for where the cached ones come from
--   Messages      src/messages/: the messages, and in Messages/Publishing what a call adds to them
--   Wallet        src/wallet/: the texts that are signed, and the key and the balance in
--                 Wallet/Account
--   Security      src/contracts/security/ and src/contracts/lido/, with Security/Guardians for the
--                 answers and Security/Signatures for what is signed
--   Guardian      src/guardian/: State has the records and the state of all services, BlockGuard,
--                 Message, Metrics and ModuleGuard a service each, Cycle the guardian's
--                 handleNewBlock and onModuleInit, and Schedule its subscribeToModulesUpdates. Under
--                 Cycle, Claims says when a message is true; Reading, BlockRead, Verdict, Steps and
--                 Modules follow the steps of a cycle, Safety and Announced put them together, and
--                 Attacked and Alarm are about a cycle that meets an attack. Schedule/Safety and
--                 Schedule/History are about any number of cycles, Schedule/Start about the daemon from
--                 its start on, Schedule/Pauses about the pauses it sends. Metrics/Counts says what the
--                 gauges show
--   Bls           src/bls/: the check of a deposit's signature
--   Config        src/common/config/: the settings and their rules, the secrets (Config/Loader), and
--                 the start with the choice of a transport (Config/Module, Config/Starting)
--   Kafka         src/transport/kafka/
--   Stomp         src/transport/stomp/: Text the texts, Frame the frames, State and Client the client
--                 as a machine that takes one event at a time, with the limits of its attempts
--                 (Client/Limits, Client/Attempts), the end of its waiting (Client/Settling), the
--                 calls that wait (Client/Sending) and the subscriptions (Client/Delivery), and
--                 Transport the transport over it
--   Health        src/health/provider.health.ts: the age of the last block
--   Promises      promises with the time they take to settle, for the batches of src/utils/
--   Utils         src/utils/: ranges, batches of promises (Utils/Batches) and the split of public keys
--   Tests         the theorems at concrete data
--
-- The state of the services is one record, Daemon, and each method is a function on the part that it
-- changes, named as in the code (getCachedEvents is get_cached_events). What the outside answers, the
-- node, the contracts, the keys service, the broker and the disk, is in records of functions
-- (DepositEnv, Contracts, KeysApi, MessagesEnv, CacheConfig, gathered in GuardianEnv).
--
-- Fuel: fetch_events_fall_over retries for as long as a request fails, so it takes fuel, and more than
-- the retries that are left plus the width of the range is enough. update_from takes one more than the
-- blocks that are left to fetch, and each round takes at least one block.
-- init_or_wait_cached_contracts takes the number of attempts. Out of fuel is `pending`. The STOMP
-- client takes lists of events and has no fuel; await_connection takes the ends of its awaits, and as
-- many as `rounds_left` says are enough.
--
-- The calls of the STOMP client that wait for a connection are kept in the state and go on when the
-- promise settles; a run is any list of events, so that a theorem on all runs covers also orders that
-- a socket would not produce.
--
-- The cron job is a list of happenings: a firing with the answers that its cycle meets, or the end of
-- a pause transaction. A firing that finds a cycle under way is dropped by the decorator and is not in
-- the list; a transaction that ends within a cycle is taken to end after it.
--
-- Numbers are natural numbers, and integers where the code has them below zero; block numbers stay below 2 ^ 53, where JavaScript's are exact.
--
-- Not modelled: log lines and the durations of calls, the Nest modules, the registration of metrics
-- and loggers, and the conversion of environment texts to settings. The guardian's cycle takes the
-- publishing of a message as a parameter, and so does the deposit service the check of a deposit,
-- which Deposit/Signed fills. Promise.all is run in the order of its list, with all its calls made;
-- only in src/utils/ is it known when each promise settles.
pub mod Shared
pub mod Outcome
pub mod Promises
pub mod Provider
pub mod Cache
pub mod Decorators
pub mod Chains
pub mod DepositEvents
pub mod Deposit
pub mod Contracts
pub mod Repository
pub mod KeysApi
pub mod StakingRouter
pub mod Messages
pub mod Wallet
pub mod Security
pub mod Guardian
pub mod Config
pub mod Di
pub mod Bls
pub mod Kafka
pub mod Stomp
pub mod Health
pub mod Utils
pub mod Tests
