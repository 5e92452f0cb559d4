-- ===== src/Lib.antt =====
-- Lumenqraph: an indexer for Soroban smart contracts. Five crates (crates/) work on one database: the
-- indexer polls ledgers and stores decoded events, the API serves them, the webhook dispatcher
-- delivers them, the MCP server offers them as tools, and the core crate has what they share.
--
-- What is modelled, and where:
-- - `Spec` and `Diff`: crates/lumenqraph-core/src/spec.rs and diff.rs. `Spec` has the parsed interface
--   of a contract as far as the diff reads it. `Diff.between` compares two versions: `Diff.Render`
--   renders each function, event and type as a signature, `Diff.Sections` compares two maps of
--   signatures, `Diff.Reclassify` moves the additive changes of events and types out of the
--   breaking ones, and `Diff.Types` has the results. `Diff.Reported`, `Severities`, `Unchanged`,
--   `Additive`, `Moved`, `Events` and `Reorders` have the theorems. The ordered maps of the code are sorted
--   association lists (`Base.Maps`), a string is the list of its bytes (`Base.Str`).
-- - `Xdr`: the two renderings of 256-bit integers of crates/lumenqraph-core/src/xdr.rs. The loop over
--   the chunks runs on fuel; five rounds are enough, and that it ends is part of the theorems.
-- - `IntArgs`: the 256-bit integers in the arguments of a call, crates/lumenqraph-core/src/read.rs, to
--   compare with the renderings of `Xdr`.
-- - `Concurrency`: crates/lumenqraph-api/src/concurrency_limit.rs. Each operation holds the mutex, so
--   it is one step; the theorems are invariants over the reachable states of a step relation. The
--   floating-point clock is a type with a test as a parameter, and so is the bound on the table.
-- - `Pagination`: crates/lumenqraph-api/src/pagination.rs, with the base64 engines as parameters. The
--   client of `Pagination.Walk` requests page after page; the query behind a page is a parameter.
--   A panic of `clamp` is `none`. The client runs on fuel, and the number of rows and one more is
--   enough.
-- - `UrlValidation`: crates/lumenqraph-core/src/url_validation.rs. `Networks` and `Networks6` state the
--   tests on an address as ranges of numbers, and `Delivery` is about the check at delivery. The URL
--   parser, the parser of addresses and the name resolution are parameters; the tests of the Rust
--   library on addresses are written out.
-- - `Poller`: crates/lumenqraph-indexer/src/poller.rs, the range that `poll_once` fetches
--   (`Poller.Ranges`), the loop over the pages of events (`Poller.Fetch`, where the server and the
--   conversion of an event are parameters), and the backoff of `run` (`Poller.Backoff`, where the
--   outcome of a cycle is an argument of a round). The loop over the pages runs on a number of
--   pages as fuel, and the number that the server has is enough.
-- - `RpcClient`: crates/lumenqraph-indexer/src/rpc_client.rs. `RpcClient.Failover` has the state and the
--   failover, which `Failover.Interleaved` takes under any interleaving of calls; `Network` has what the
--   endpoints are asked about themselves; `Calls` has the attempts, the rounds over the endpoints and
--   the call, for one call at a time, `Calls.Spread` the requests to each
--   endpoint, and `Calls.Reference` the walk that a call is compared with. The
--   endpoints, the clock and the random numbers are a record of operations on a state of the world.
--   The rounds are as many as the endpoints, as in the code.
-- - `Dispatcher`: crates/lumenqraph-webhooks/src/dispatcher.rs, what the outcome of a delivery does to
--   the row of its subscription (`Dispatcher.Disabling`), and the delay of a retry
--   (`Dispatcher.Delay`). The counters are taken not to leave their 32 bits. `Dispatcher.Enqueue` has
--   the stage before: its queries on the tables, `Enqueue.Reach` the live stream over any order of
--   steps, `Enqueue.Backfill` the passes over a subscription's cursor, which no code sets. `Enqueue.Filters`
--   is the condition on a filter, with PostgreSQL's `jsonb` operators as parameters. An event may be
--   committed at any time, also after one with a larger number.
-- - `Codegen`: crates/lumenqraph-core/src/codegen.rs. `Codegen.Names` is about the names and `Codegen.Docs`
--   about the escaping of doc strings, `Codegen.Comments` about the comments that are written of them;
--   `Codegen.Types` has the types in the three languages,
--   `Types.Reading` the grammar of TypeScript that they are read by, `Types.Defined` the prelude and
--   `Types.Mentioned` and `Types.Words` the names that a type and its text mention.
--   Rust's escaped form of a string is a parameter.
-- - `Webhooks`: crates/lumenqraph-api/src/routes/webhooks.rs, what is checked of a new subscription, and
--   its row, which is that of `Dispatcher.Enqueue`. A request that `since` cannot be resolved for is
--   left out, as are the secret and the owner. The check of the address is that of `UrlValidation`, taken
--   as a parameter.
-- - `Wasm`: the walk over the sections of a module in crates/lumenqraph-core/src/spec.rs, with its
--   reader. It runs on fuel, and the length of the module is enough. `Wasm.Sections` has an encoder of
--   modules to compare with, `Wasm.Ending` and `Wasm.Parts` are about any bytes.
-- - `Sanitizer`: crates/lumenqraph-core/src/sanitize.rs, on the characters of a message (`Base.Text`).
-- - `ContractIds`: `parse_contract_ids` of crates/lumenqraph-core/src/xdr.rs. Strkeys are a parameter in
--   both.
-- - `SpecIndex`: the indexes of crates/lumenqraph-core/src/spec.rs (`reindex`), the lookups in them
--   (`SpecIndex.Names`) and the event schema that `enrich_event` selects (`SpecIndex.Prefixes`). The order
--   in which a hash map is iterated over is a parameter.
-- - `CallCache`: crates/lumenqraph-api/src/call_cache.rs, over the interface `Lru` of the lru crate.
--   `CallCache.History` has the history that the cache is compared with, `CallCache.Steps` takes the operations
--   one by one, `CallCache.Keys` is about the keys. `Json` has the values of serde_json.
-- - `ReadCost`: crates/lumenqraph-api/src/read_cost_limit.rs.
--
-- `Base` has what the components share: numbers and their tests, lists, strings, decimal numbers,
-- maps, sorting, results, UTF-8 and texts by characters. An `i64` is an integer of `Base.Int`; where an
-- operation could leave its range, the wrap-around is written out. Each component's `Examples` has tests and the
-- theorems at concrete inputs.
--
-- Not modelled: the database, the HTTP servers and clients and the XDR decoder, which are other
-- crates; the routes, which join them; configuration, metrics and start-up, which are input and
-- output.
pub mod Base
pub mod Dispatcher
pub mod Poller
pub mod ReadCost
pub mod Spec
pub mod Diff
pub mod Xdr
pub mod UrlValidation
pub mod Concurrency
pub mod Pagination
pub mod Wasm
pub mod Sanitizer
pub mod ContractIds
pub mod Lru
pub mod Json
pub mod CallCache
pub mod SpecIndex
pub mod IntArgs
pub mod RpcClient
pub mod Codegen
pub mod Webhooks
