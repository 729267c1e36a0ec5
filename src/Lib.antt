-- ===== src/Lib.antt =====
-- chain_indexer follows EVM and Solana chains, reads events from their blocks, matches them
-- against the subscriptions of its users and notifies the channels of those that match. This
-- library models its core: for each part, the state as a record, the operations as functions by
-- clauses, and theorems about them.
--
-- A worker (apps/worker) runs one chain runner for each chain. The runner takes heads from an
-- adapter (core/chains), holds them back in a confirmation buffer until they are deep enough,
-- fetches the blocks that are confirmed with the logs that a filter set lets through
-- (core/matcher/filter_set.py), runs the parsers of its pipeline (core/parser) on each, matches
-- the events (core/matcher/matcher.py, filters.py) and dispatches the hits to the notifier
-- (core/notifier), whose channels retry their deliveries.
--
-- - Base has the helpers: lists and numbers, Python texts (Base/Text), signed numbers (Base/Int)
--   and dicts as association lists (Base/Dict).
-- - Chain/Types is core/chains/types.py; Chain/Buffer is core/chains/confirmation_buffer.py, with
--   its lemmas in Chain/Buffer/Link, Depth and Reorg; Chain/Pool is core/chains/rpc_pool.py, with
--   Chain/Pool/Failover and Health; Chain/Evm is core/chains/evm.py, with the traces and the
--   polled heads in its children; Chain/Solana is the slots of core/chains/solana.py.
-- - Config/Snapshot has the records of core/config/snapshot.py, Config/Load its load_snapshot.
--   Config/Rows has the rows of core/config/models.py, and in its children the queries of
--   core/config/repositories.py.
-- - Abi/Registry is core/abi/registry.py: the indexes and the refresh, with the lookups in
--   Abi/Registry/Lookup and the agreement of the caches in Abi/Registry/Coherent. Abi/Signature,
--   Abi/Decoder and Abi/Borsh are core/abi/decoder.py.
-- - Parse/Value has the Python values of arguments and filters, and int() of a text. Parse/Native,
--   Erc20, Internal, Abi and Pipeline are the files of core/parser for EVM chains, and
--   Parse/Solana and Anchor those for Solana. Parse/Hex and Parse/Bytes read hexadecimal and
--   little-endian words.
-- - Match/Filters, Match/Matcher and Match/FilterSet are the files of core/matcher.
-- - Notify/Retry is core/notifier/retry.py with the send of core/notifier/http.py, whose statuses
--   are in Notify/Retry/Statuses; Notify/Payload and Notify/Notifier are payload.py and
--   notifier.py.
-- - Run/Logs, Run/Catchup, Run/Process, Run/Solana and Run/Replay are parts of
--   apps/worker/chain_runner.py.
-- - Worker is the worker of apps/worker/main.py, with its reconciliation in Worker/Reconcile;
--   Worker/Lock is core/worker/chain_lock.py as moves of several workers on one key of Redis.
--
-- Heights, amounts and times are natural numbers, and signed numbers stand where the source uses
-- -1 or reads a signed text. A text is a native string; lower and int read ASCII. An exception is
-- none, or a constructor of a result type where its kind matters. What comes from outside is a
-- parameter: the answers of endpoints and nodes, the sends of channels, the clock, the decoders of
-- base58, base64 and Borsh, the hash of an event's signature and regular expressions. The parsers
-- take the lookups of the registry as parameters too, but in Parse/Abi/Registered, and the
-- decoders those of eth-abi and construct. Logging is left out, and of the metrics only the health
-- gauge and the failover counter of the pool are state.
--
-- Loops are recursion on lists, or on fuel: the walk back of the buffer has as many rounds as the
-- source gives it, one more than the buffer holds; the query of logs has one unit of fuel for each
-- block of its range, and each halving leaves fewer blocks; the windows of the catch-up need as
-- much fuel as there are blocks, since a window has at least one; the digits of a number have one
-- more unit of fuel than its value; the fuel of a type of an IDL is what is left of the depth that
-- the source allows.
--
-- Not modelled: the RPC transport, the blocks of core/chains/solana.py, the connection to the
-- database (core/config/db.py) and the queries that only pass fields on, the message bus, the
-- other channels, which only call their client libraries, the web application (apps/web), the
-- watchers of apps/worker, migrations and scripts.
pub mod Base
pub mod Chain
pub mod Notify
pub mod Parse
pub mod Config
pub mod Abi
pub mod Match
pub mod Run
pub mod Worker
