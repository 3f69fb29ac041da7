-- ===== src/Lib.antt =====
-- rapid-router is an LLM gateway: it authenticates a caller by a virtual key, admits the request
-- against rate limits and a budget, resolves the requested model to a provider, picks one of the
-- provider's credentials by health, ceilings and balance, forwards the request, tries again where
-- that is worth it, and reads the stream of events that comes back. Its settings are one document
-- that all nodes share. This library models that core and proves it correct.
--
-- Numbers of the source are native numbers; where the source adds or multiplies words of 64 or 32
-- bits plainly, the model wraps as a release build does. Time is an argument of each call, as in
-- the source. A type with atomics is modelled twice: each call as one function, run with no other
-- thread between its accesses, and each call as a thread of atomic accesses under an arbitrary
-- schedule. Accesses are taken in one order, that of the schedule: weaker memory orders are not
-- modelled.
--
-- Prelude: shared names, Boolean tests, lists, words, maps, texts and byte strings.
-- Breaker: crates/router-core/src/breaker.rs. The packed word (`pack`, `unpack`) in Word, the
--   calls in Breaker, their atomic accesses in Threads.
-- TokenBucket: crates/router-core/src/token_bucket.rs. The calls in TokenBucket, their atomic
--   accesses in Threads.
--
-- Router: crates/router-core/src/router.rs, with TargetModel, RoutingGroup and Retries of
--   crates/router-core/src/config/mod.rs. Key is one credential and its ceilings (`KeyRuntime`),
--   Pick the choices among candidates, Pool a provider and the admission of one attempt
--   (`ProviderRuntime::admit_for`), Holding what a caller has in a pool, Table the resolution of
--   a model and its plan (`RoutingTable`), Rebuild the table that a configuration makes
--   (`from_config_with`, `carry_bucket`, `carry_slots`). Members, Alike, Selection, Ownership,
--   Progress, Balance, Ceilings, Plan and Reload hold the proofs.
-- Vkey: crates/router-core/src/vkey.rs. Spend is the packed counter (`SpendState`), Period the
--   calendar, Token the shape of a key and of a stored hash, Runtime one key (`VkRuntime`), Table
--   all keys (`VkTable`); Access, Rebuild and Limits hold the proofs.
-- Access: crates/router-core/src/access.rs, users, teams and what a member is granted
--   (`Grant::for_member`); Grants holds the proofs.
-- Store: crates/router-store/src/state.rs, the state that commands build (`StoreState::apply`);
--   Members holds its proofs. Plane is the backend in memory
--   (crates/router-store/src/backend/mod.rs and memory.rs), Commit the writes and the refreshes
--   of all nodes over it (`Store::commit` and `Store::refresh` of
--   crates/router-store/src/lib.rs), as steps of tasks that any other task may come between; its
--   Invariant, Rounds, Steps, Answers and Alone hold the proofs.
-- Errors: crates/router-core/src/error.rs, the classes of failure and their statuses.
-- Proxy: crates/router-server/src/proxy.rs. The gate of a virtual key (`vk_gate`) in Proxy, one
--   attempt up to the response it serves (`attempt`, `translated_response`,
--   `hold_out_refused_seat`) in Reply, the loops of `run_chat` in Dispatch; Attempts, Permits and
--   Gate hold the proofs.
-- Sse: crates/router-core/src/sse.rs, the parser of server-sent events and `format_event`;
--   Boundary, Chunks and RoundTrip hold the proofs.
-- EventStream: crates/router-core/src/eventstream.rs, the parser of the AWS framing and
--   `encode_event`; Frames, Slices, Decode and RoundTrip hold the proofs.
-- Histogram: crates/router-server/src/histogram.rs, counts of latencies in buckets
--   (`LatencyHistogram`); Merge and Rank hold the proofs.
-- Rollup: crates/router-server/src/usage.rs, the hourly rows (`roll_up`, `fold_rows`,
--   `RollupRow::absorb`); Sums and Fold hold the proofs.
-- Config: crates/router-core/src/config, the document and its validation. Raw is the document as
--   written (raw.rs), Checked the list of errors that every section pushes on, Secrets the
--   references to secrets, Numbers the tests on floats; Presets (presets.rs), Keys, Kinds and
--   Providers make the provider sections, Aliases and Pools the aliases, fallbacks and groups,
--   Tenants and VirtualKeys the services and the keys of callers, Sections the rest; Validate
--   puts them together (`validate` of validate.rs). Accepted, AliasNames, Cycles, Groups, Chains,
--   KeyRules, ProviderRules, VirtualKeyRules and Services hold the proofs of what an accepted
--   document is; Catalog and Planned join them with the table that Router/Rebuild makes, over
--   Router/Sound. The dates of expiry are read in Vkey/Expiry.
-- Metering: crates/router-server/src/usage.rs, the token counts of a response and the body that
--   counts while it streams (`MeteredBody`); Charge is what its completion charges and records
--   (`UsageHook::complete_with_body`). Tail and Once hold the proofs.
-- Live: crates/router-server/src/usage.rs, the ring of minutes (`Aggregator::record`); Counts
--   holds the proofs.
-- Logins: crates/router-server/src/device_login.rs, the registry of device logins and the two
--   parts of a start, before and after the request for a code; Codes holds the proofs.
-- Framing: what the two parsers share, a buffer from which whole frames are cut.
--
-- The routing table resolves a request to targets, each of a provider. The proxy goes through
-- them: for each attempt the provider's pool admits one of its keys, by asking the key's breaker
-- and taking from its buckets, and the reply is told to that breaker. A virtual key is checked
-- before that, with buckets and a spend of its own. When the reply has been sent, or is dropped,
-- the metering body charges the usage it has read to the key and its account. The table and the
-- keys are made from a configuration, which validation makes from the document.
--
-- Floats (weights, shares, budgets) are bit patterns under operations that are arguments, since
-- they are the hardware's; so are the scale of the histograms' buckets, BLAKE3, the checksum of a
-- frame, the lossy reading of UTF-8 and the draws of the random number generator. The parsers
-- read lists of bytes, and a text there is its bytes in UTF-8. A lookup by text is an association
-- list. JSON is that of serde_json, the lossy reading of UTF-8 that of the standard library, the
-- environment, the files and the wall clock are given, and prices and costs are arguments. The
-- wording of an error is a case. The bounds of the tail of a stream (262,144 bytes), of the live
-- window and of the registry of logins are arguments or constants as the source has them.
--
-- Fuel: the loop of `admit_for` drops one candidate in each round and runs on as much fuel as
-- there are candidates; the proof that a ready key is found shows that this is enough. The loops
-- of the two parsers take a byte at least in each round and run on the length of the buffer; the
-- proofs show that more fuel gives no more. The chain of an alias is followed on one more step
-- than there are aliases: a proof shows that it then ends, at a target or at an alias seen
-- before.
--
-- Not modelled: the servers, the store backends but the one in memory, the translators, the files
-- of usage, and the discovery and loading of the configuration file, which are I/O or reshape
-- JSON; the readers of the live window, prices, and the bodies held in memory; what happens in a
-- translated stream once it has begun; the poll of a device login for its code and the exchange
-- of tokens; console sessions; observed quotas and the refresh of credentials. What the
-- translators make of a request and of a response is an argument of the proxy's loops. A spend
-- shared by a key and the runtime that replaces it is handed over by value.
pub mod Prelude
pub mod Breaker
pub mod TokenBucket
pub mod Router
pub mod Vkey
pub mod Access
pub mod Store
pub mod Framing
pub mod Sse
pub mod EventStream
pub mod Errors
pub mod Proxy
pub mod Histogram
pub mod Rollup
pub mod Config
pub mod Metering
pub mod Live
pub mod Logins
