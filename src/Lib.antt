-- ===== src/Lib.antt =====
-- Verification library of atlas_io, a service that does file I/O for clients over shared memory.
--
-- A client and the service share three segments: a ring of requests, a ring of responses and a
-- data region. The service polls the request rings of its channels into a pipeline, drains
-- operations from it, executes them and sends the responses.
--
-- Parts, with the code that they are about:
--   Base       numbers, words, lists and tests that the other modules share
--   Spsc       atlas-protocol/src/spsc.rs. `SpscRing`, `Producer`, `Consumer`, `push` and `pop` are
--              the operations as one call; Machine is the step relation of the two threads, one
--              step for each access to shared memory; Setup is `init_in_place` and `attach`
--   Protocol   atlas-protocol/src/lib.rs: requests and responses, their codes, paths, the names of
--              the segments
--   Batch      atlas-service/src/batch.rs: `BatchEngine`, `drain_merged`, `merge_adjacent`
--   Scheduler  atlas-service/src/scheduler.rs: `enqueue`, `drain`
--   Pipeline   atlas-service/src/pipeline.rs: the trait as a record, `Conserves`, `Delivers` and
--              `HandsOn` as the laws that the others need of it; PassThrough and Batched fill them
--   Executor   atlas-service/src/executor.rs: the trait as a record; the POSIX backend over `Libc`,
--              the system calls, and Uring over `Ring`, the calls of the io_uring crate, whose
--              documented behaviour is in Laws; a batch whose `expect` panics gives nothing
--   Channel    atlas-service/src/channel.rs: a channel as what is in its rings, which Service uses
--   Shm        both channel.rs over `Posix`, the calls of POSIX shared memory, and Laws, what they
--              are documented to do. ClientSide is the client's startup (`PreparedChannel::create`,
--              `connect`, `ClientChannel::create`), ServiceSide is `ServiceChannel::join`, Messages
--              is `send_request`, `poll_request` and `send_response` over the rings; Prepare, Join,
--              Connect, Startup and Timeout prove what the startup makes, Link, Exchange and Refine
--              what the messages do; InMemory is a system for which the laws hold
--   Client     atlas-client/src/channel.rs and lib.rs: `DataRegion` with `alloc`, `send_request` and
--              the calls of `AtlasClient`, over `Peer`, the other side; Ffi is ffi.rs
--   Service    atlas-service/src/service.rs: `execute_round` and what it calls, and in Run the loop;
--              Binary is `register_and_run` of atlas-service/src/main.rs
--   System     a client and the service together: `Machine` is an operating system with the data
--              region of each channel in its memory, Disk the laws of files, for transfers inside
--              a region, Session a client's calls in a row,
--              Merged what clients see of reads that were merged, MergedWrite what two merged writes
--              leave in the file, Overrun a merged read next to a write
--
-- How state is modelled: an object is a record, and a method gives the changed record. A vector
-- and a queue are lists, the descriptor table is an association list, and a pointer into a data
-- region is a channel with an offset. Words are natural numbers, with the wrap of a release build
-- written out. What an executor acts on (files, memory) is in its state, which is a parameter.
--
-- Bounds and fuel: `attach` tries a million rounds, as in the code, by recursion on them.
-- `run_chunks` has the number of operations for fuel, which is enough since each round takes one
-- at least when the capacity is not 0; the kernel refuses a ring of that capacity. `run` is given
-- what arrives before each turn and takes one turn for each. All other loops are structural.
--
-- The loops that wait for another process (`connect`, `send_request`, `send_response`) take the number
-- of rounds: 200 in `connect`, as in the code, and any in the others, with two rounds enough in
-- Exchange. What the other processes do while a loop sleeps or yields is a function on the world.
--
-- Not modelled: memory orderings weaker than sequential consistency, the layout of the wire types in
-- bytes, the access to a mapping past the end of its object (a bus error), `DataRegion` on the
-- service's side, which only hands out a pointer, `atlas_client_destroy`, and of the binary the
-- signal handler and the choice of the executor. In Service a channel is what its rings hold, and a
-- response is sent when the ring takes it: how long `send_response` waits for a client that does not
-- read is left out there.
pub mod Base
pub mod Spsc
pub mod Protocol
pub mod Batch
pub mod Scheduler
pub mod Pipeline
pub mod Executor
pub mod Channel
pub mod Service
pub mod Shm
pub mod System
pub mod Client
