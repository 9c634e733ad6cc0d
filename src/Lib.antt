-- ===== src/Lib.antt =====
-- The verification library of tephra, an event store with dynamic consistency boundaries. The model
-- covers the write side of the engine: the values that callers build, the event codec, the query
-- predicate, the fast rejects in front of an append condition, the derived index, the segmented log
-- down to the bytes of its files, and the write coordinator that ties them together, with the
-- planning of reads and the framing of the wire protocol. Paths are from the repository's root.
--
-- How the parts interact. A caller encodes events (Event::new) and submits requests. The writer
-- thread drains a window of them (Worker::collect), evaluates each condition (condition::evaluate)
-- against the tags staged in the window (StagedTips), the durable tips (TagTips), the index
-- (IndexSet::find_match) or a scan of the log (SegmentSet::scan_after), stages what is accepted
-- (Batch::stage), appends the batch as one durable unit (SegmentSet::append_batch), feeds the index
-- (IndexSet::push, seal_active), lets the tips absorb the batch and replies (Worker::process).
--
-- Prelude: Boolean tests and lists over the native numbers, byte strings in their lexicographic
--   order (Prelude/Str), results with a typed error (Prelude/Result).
-- Types: crates/tephra-types. Position (position.rs) is its u64 value with the wrap-around of a
--   release build; Name, Tags and Query are name.rs and query.rs. A string is its list of bytes.
-- Event: crates/tephra/src/event.rs. Event is the encoder and the accessors, Event/Decode the
--   validating decoder, Event/Utf8 the test for valid UTF-8 of str::from_utf8, Event/RoundTrip,
--   Event/Layout and Event/Sound the proofs.
-- Matching: crates/tephra/src/query.rs, with the cursor of tags_contained; Matching/Merge compares
--   it with the documented predicate.
-- Tips: crates/tephra/src/writer/tips.rs. A hash map is an association list (Tips/MaxMap).
-- Index: crates/tephra/src/index. Interface is the trait SegmentIndex of mod.rs as a record, with
--   the contract Indexes; Search is search.rs; Tail is tail.rs, a ChunkedVec of append.rs being the
--   list of what was pushed and a PostingSlot the list of its locals; Set is set.rs; Plan is plan.rs
--   and Recovery recovery.rs.
-- Log: crates/tephra/src/log/set.rs. A segment is its base and its data records. Of the active
--   segment's writer there is the write offset, and of its file the records before the last commit
--   marker, those in the stream behind it, and whether an incomplete one follows. What the file
--   system answers to each record of an append, to its marker, sync and rewind, and to a rollover
--   is the record Disk, over all values of which the theorems range. Log/Locate has the binary
--   search for a position's segment, Log/Scan the reading, Log/Rollover, Log/Write, Log/Accepts
--   and Log/Append the writing.
-- Writer: crates/tephra/src/writer. The types are mod.rs, Condition is condition.rs, Batch is
--   batch.rs, Coordinator is coordinator.rs: collect and process with every state change. A reply is
--   a pair of the request's token and the result, in the order of sending.
-- Seglog: crates/seglog/src. The record format is lib.rs; Recover and Write are write.rs; Read is
--   read.rs and parse.rs. A file is the list of its bytes; what the system answers to writes, syncs
--   and seeks is an argument; CRC-32 is a parameter with two laws. Log/Header is
--   crates/tephra/src/log/header.rs, and Index/Postings crates/tephra/src/index/postings.rs.
-- Proto: crates/tephra-proto/src. Framing is framing.rs, over reads that are given any number of
--   bytes or would block; Convert is convert.rs, over the messages of proto/tephra.proto.
-- Read: crates/tephra/src/read/mod.rs, the planning of a forward read over a snapshot. Window, Cap,
--   Fallback, Within and Sealed are the steps of Positions; Estimate has the bound of the planner.
-- Tests: concrete inputs, runs of the code on them, and the instances of the theorems.
--
-- Loops are by structural recursion, but for four on fuel. That of Worker::collect runs on the
-- number of requests that the window has room for, which is the bound that the code tests. The
-- binary search of SegmentSource::locate runs on the number of sealed segments, the width of its
-- first window, and each round makes the window narrower. The scan of recover runs on the size of
-- the segment, since each round takes eight bytes at least; encode_varint on its value, which each
-- round divides. TagsRef is read for as many tags as its header has room for.
--
-- Log and Seglog are two views of a segment: Log has its records and takes what each write comes to
-- as an argument, Seglog has the bytes of one file, where the same faults are bytes that are cut
-- off. The panic of a slice that is too short is an error of the reader's own.
--
-- A panic is a value: Worker::process and IndexSet::push return none where the code would stop, and
-- ActiveTail::push an error of its own. The index that a sealed segment file answers with is a
-- parameter, sealed_form, with the law Faithful: it answers as the tail that was encoded did.
--
-- Not modelled: the segment file codec of the index (crates/tephra/src/index/segment.rs and
-- header.rs), SegmentSet::open and the backward scan of the log, the record iterator and
-- replace_header of crates/seglog, the rest of the read path (the streams of Reads, backward reads,
-- subscriptions and the pool of crates/tephra/src/read), threads, channels and the memory order of
-- the lock-free structures, the error codes, TLS and async framing of tephra-proto, and the crates
-- tephra-server, tephra-client and tephra-crashtest. The file writes of the index are best effort
-- in the code and have no effect on the state that is modelled.
pub mod Prelude
pub mod Seglog
pub mod Proto
pub mod Read
pub mod Types
pub mod Event
pub mod Matching
pub mod Tips
pub mod Index
pub mod Log
pub mod Writer
pub mod Tests
