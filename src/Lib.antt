-- ===== src/Lib.antt =====
-- A verification library for the C++ worker of the TON index (ton-index-worker). It reads the blocks
-- of the TON blockchain from the node's database, parses them, joins their transactions into traces,
-- and inserts them into a database.
--
-- The parts, and how they interact:
-- - The index scheduler (ton-index-postgres-v2/src/IndexScheduler.cpp) decides which masterchain
--   blocks are indexed, starts a bounded number of them, and sends each through the stages fetch,
--   parse, traces, interfaces, actions and insert. An error at a stage queues the block again.
--   Scheduler.antt has its record of members, one function per handler, and the requests that a
--   handler sends as `Effect`. Scheduler/Pipeline.antt sets it among the actors that answer.
-- - The trace assembler (tondb-scanner/src/TraceAssembler.cpp) is the stage that joins transactions by
--   their messages. Blocks come in any order and are processed in order. Assembler.antt has
--   `process_transaction`, Assembler/Block.antt `process_block`, Assembler/Tasks.antt the queue with
--   `assemble` and `process_queue`, Assembler/States.antt the saved states (`gc_states`,
--   `restore_state`, `alarm`), and Prelude/Numerals.antt the numbers in their names. The other files of
--   Assembler are proofs.
-- - The insert manager (tondb-scanner/src/InsertManagerBase.cpp) collects parsed blocks in a queue and
--   cuts it into batches for parallel insert actors. Insert.antt has its operations, and
--   Insert/System.antt sets it among its clients, its timer and its actors.
-- - The sizes of a queue (tondb-scanner/src/queue_state.h, queue_state.cpp) are Queue.antt, and the
--   records of tondb-scanner/src/IndexData.h that the others share are Schema.antt.
-- - The schedulers for ClickHouse (ton-index-clickhouse/src/IndexScheduler.cpp) and for the first
--   Postgres schema (ton-index-postgres/src/IndexScheduler.cpp) are Clickhouse.antt and
--   PostgresV1.antt, with the same handlers and the stages fetch, parse and interfaces, and the file
--   Pipeline.antt of each sets it among the actors that answer.
-- - The scheduler, the trace assembler and others record durations (tondb-scanner/src/Statistics.cpp),
--   which Statistics.antt models.
-- - The database scanner (tondb-scanner/src/DbScanner.cpp) fetches a masterchain block with the shard
--   blocks that belong to it. Scanner.antt has the query `IndexQuery`, which walks back from the last
--   block of each shard, and Scanner/Loader.antt the actor that loads one block. Scanner/Steps.antt
--   sets the query among the answers of the database, and says which blocks belong to the
--   masterchain block.
-- - The integrity checker (ton-integrity-checker/src/IntegrityChecker.cpp) asks the scanner for each
--   masterchain block in turn. Integrity.antt has its handlers, and Integrity/System.antt sets it among
--   the scanner, the parser and its own delayed messages.
-- - The trace emulator (ton-trace-emulator/src/TraceScheduler.cpp and BlockEmulator.cpp) follows the
--   newest masterchain blocks. Emulator/Scheduler.antt has the scheduler, which takes the blocks from
--   the scanner in any order, and Emulator/Feed.antt sets it among the answers. Emulator.antt has
--   `McBlockEmulator`, which finds the trace of each transaction and has each trace emulated.
--
-- How the code is modelled. An actor handles one message at a time, so a handler is a function on the
-- actor's members, and the messages that it sends are its effects. The counters of Statistics are not
-- behind an actor: the threads add to them while a report reads and clears them, and `gather` takes as
-- a `Turn` what each thread adds before the reading of a counter, between the reading and the store of
-- 0, and after it. Machine words are natural numbers
-- below their modulus, signed ones by their patterns, and sums wrap (Prelude/Words.antt); a comparison
-- of signed with unsigned is unsigned, as in C++. Maps and sets are association lists without
-- repetitions (Prelude/Maps.antt). A trace behind a shared pointer is written back under the key where
-- the pointer lies. `none` in Assembler/Block.antt is a fault of the C++ code: a null pointer, a failed
-- assertion, or an edge for a trace that is not there. Block ids and handles belong to the node's
-- library: `Library` in Scanner.antt is what it says of them, and `Chain` in Scanner/Steps.antt is the
-- chain that the handles show. What follows a `td::MultiPromise` is done after the last of its answers,
-- or fails at the first error.
--
-- Loops and fuel. The loops over containers are structural. `process_loop` runs at most as many rounds
-- as the queue has tasks, since each round takes one away. `schedule_loop` of Insert.antt runs at most
-- as many rounds as actors may still start. `known_loop` and `exist_loop` run from the first number to
-- the last one; the C++ loops do not end if the last one is 2 ^ 32 - 1, and that case is left out.
-- `find_oldest_seqno_with_state` halves its range, so 33 rounds are enough for words. `emulate_loop` of
-- Emulator/Scheduler.antt takes a block out of the map in each round, whose size is its fuel. The rounds
-- of an `IndexQuery` are steps of a relation. `print_digits` has one more round than the number, which
-- has fewer digits than that.
--
-- Not modelled: the database clients and their SQL, the TVM and the cell library, msgpack, file and
-- network access, logs, timers, the estimates of speed, the emulation of transactions, the contract scanner,
-- and the command line programs. Reading and unpacking a state file are parameters.
--
-- Examples holds concrete inputs at which the theorems apply, and tests of the definitions.
pub mod Prelude
pub mod Schema
pub mod Queue
pub mod Insert
pub mod Assembler
pub mod Scheduler
pub mod Clickhouse
pub mod PostgresV1
pub mod Statistics
pub mod Emulator
pub mod Integrity
pub mod Scanner
pub mod Examples
