-- ===== src/Lib.antt =====
-- A model of reth-statefeed and the theorems that make it correct.
--
-- The program publishes a projection of selected Ethereum storage slots to local consumers. The
-- engine thread of the node extracts the watched changes of each block (src/feed.rs) with a compiled
-- dictionary (src/watch.rs) and puts events into a bounded queue. The publisher thread
-- (src/publisher.rs) turns them into complete projections, tracks candidates and their ancestry,
-- follows forkchoice, and sends frames (src/wire.rs) with increasing sequences to all consumers. A
-- loss, an error or an internal reset is announced by a gap, which a fresh snapshot follows. A
-- consumer reads frames (src/client.rs) and checks their order (src/bin/statefeed-dump.rs).
--
-- Modules and what they model:
--   Prelude        tests, lists, results, hash maps as association lists, byte strings
--   Watch          src/watch.rs: WatchSet::compile, address, matches_config; Grouping, Lookup,
--                  Entries and Matching have what they find and compare
--   Feed           src/feed.rs: events, AppliedForkchoiceMeta::resolve; Feed.Enqueue: try_send,
--                  record_drop, notify_loss and take_pending_loss as interleaved atomic operations;
--                  Feed.Produce: the publish calls and request_activation; Feed.Extract:
--                  extract_changes
--   Wire           src/wire.rs: every message, encode_frame; Wire.Framing has lemmas on it
--   Client         src/client.rs: FrameReader::read, PackedValues (Client.Packed)
--   Config         src/config.rs: Config::validate and StreamConfig::validate, Config::load
--   Integration    src/reth_integration.rs: the tracker of the applied forkchoice; Snapshots (reads at
--                  times, load_at), Loading (load_latest), Hooks (the engine validator); Anchoring
--                  relates what load_latest returns to what was read
--   Dump           src/bin/statefeed-dump.rs: StreamCursor; Dump.Tracker: CandidateTracker;
--                  Dump.Checks: what main checks of each envelope
--   Publisher      src/publisher.rs: State (the records), Candidates, Insertion, Retirement and
--                  Finality (changes of the candidate maps and queues), Messages, Validate, Exec (how
--                  operations run; publish_inner), Lifecycle, Project, Canonical, Recovery, Handle
--                  (the operations and the loop of run_publisher); Stream and its children relate
--                  the frames sent to the consumer's cursor; Serve: serve_consumer, interleaved with
--                  the steps of publish_inner; Reload: run_config_reloader;
--                  Exec.Retiring: the frames of publish_retired
--   Tests          concrete inputs
--
-- How the model stands to the code. Hashes, addresses, slots and values are natural numbers; byte
-- strings are lists of numbers. A state is a record with the fields of the program's struct; an
-- operation takes the state and returns the new one beside a result, and what was changed before an
-- error stays changed. The fields of Publisher that hold candidates form a record of their own. The
-- 64-bit arithmetic is written out where it wraps, saturates or is checked: the sequence counter is
-- kept unreduced and read modulo 2 ^ 64. A clock reading is an argument or a field of the state that
-- each turn of the loop sets; within one turn the clock stands still. The provider of snapshots is a
-- record of functions of the number of calls made before, so that it may answer differently each
-- time. The protobuf encoding is a record of functions. Metrics and log lines are left out.
--
-- Loops. The loops of trim_projection_cache and trim_metadata and of remove_candidate_tree run on
-- fuel that is computed from the state: two rounds for each queued pair and three; one round for
-- each queued pair and one; one round for each link of the index and one. So do the loops of
-- CandidateTracker: a round for each place of the queue, and one for each link and one. The retry loop of
-- recover_until_success recurs on the number of waits that time out before a shutdown arrives, and
-- the loop of run_publisher on the list of the turns that the environment chooses.
-- The binary search over the slots of an address has a round for each slot.
--
-- Time. The reads of load_latest happen at times, each later than the one before; what the tracker,
-- the clock and the provider of the node answer is a function of the time. A publication and a
-- consumer take their steps in an order that is chosen freely.
--
-- Not modelled: sockets, threads, the reading and decoding of the configuration file, the wrapped
-- engine validator, the watcher and the signals that wake the reload task, and the metrics. The weak
-- memory orderings of the atomic operations are left out: their order is one sequence.
pub mod Prelude
pub mod Watch
pub mod Config
pub mod Feed
pub mod Wire
pub mod Client
pub mod Integration
pub mod Publisher
pub mod Dump
mod Tests
