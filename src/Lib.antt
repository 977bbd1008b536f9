-- ===== src/Lib.antt =====
-- MemSync: a key-value cache in a region of memory that several processes map, src/cache_engine.cpp
-- with include/cache_engine.h.
--
-- A process opens the shared object, which one of them creates and initialises, and passes the base
-- pointer to the operations of the engine. Each operation checks its arguments, takes the
-- reader-writer lock of the header, and works on an open-addressing table of fixed slots: linear
-- probing from a djb2 hash, tombstones for removed slots, and a time to live for each entry.
--
-- Text: the C strings and the functions of <cstring> that the engine calls on them.
-- Layout: the header, the entries, pointers by byte offset, cache_initialize_region,
--   cache_validate_layout, validate_ready_header. Layout.Bounds and Layout.Init are its theorems.
-- Lifecycle: cache_open_shared and cache_close_shared with the three helpers that release a
--   resource, over what the operating system answers.
-- Hash: hash_key. Hash.Polynomial compares it with a hash without wrap-around.
-- Table: the internal functions that search and change the slots under the lock. Table.View reads
--   a table as a partial map from keys to entries (`find_entry`), Table.Invariant states when a
--   table is well formed, and the other children prove each function against the map.
-- Cache: the argument checks, find_slot, cache_put, cache_put_ttl and cache_get, each with its
--   critical sections. Modify: cache_update and cache_delete. The children of both prove the
--   operations on a locked, well-formed table; Modify.Revise says what an update leaves.
-- Contract: the operations as their callers see them, from argument checks to results, and what
--   follows for sequences of calls.
--   Contract.Room and Contract.Again are the puts that displace nothing, Contract.Reference,
--   Contract.Reads and Contract.Writes the operations of one process against a map,
--   Contract.Scripts any sequence of them.
-- Spec: what the cache promises with no table, a map of cells that expire, the actions of a process on it,
--   and the change that each makes.
-- Sharing: several processes at once. A step is one critical section that holds the write lock;
--   the steps of all processes interleave in any order.
--   Sharing.View reads a region as a map of Spec, and Sharing.Refine compares the steps with Spec.
-- Telemetry: cache_print_telemetry, over an arithmetic of doubles that is a parameter.
-- Bridge: the JSON strings, the argument checks and the time-to-live argument of src/ui_bridge.cpp.
--   Bridge.Unescape reads their escapes back, and Bridge.Json reads them as JSON texts, which are UTF-8
--   (Bridge.Utf8).
-- Command: run_command and main of src/ui_bridge.cpp: one command line is one opening, at most one
--   operation, and the closing. Command.Release and Command.Stored are its theorems.
-- Legacy: the manager of legacy/shared_memory.cpp, which nothing else of the program uses.
--   Legacy.Ownership states what it holds.
-- Demo: src/main.cpp (Demo.Standalone), src/writer.cpp and src/reader.cpp (Demo.Exchange) and
--   src/cleanup.cpp, as functions of what the environment answers; what they print is a list of
--   lines. Demo.Fresh, Demo.Tour and Demo.Handing follow them through the cache.
-- Socket: bench/benchmark_socket.cpp, a cache behind a stream socket: transfer_all over the answers
--   of read and write, the request of a client, and the loop of a server (Socket.Server). The servers
--   share the values, so what the others do to them between two turns is an argument. Socket.Dictionary
--   says what a request does to a map, and Socket.Answers follows a server with it.
-- Benchmark: csv_quote and cpu_model of bench/benchmark_reporting.cpp (Benchmark.Quoting,
--   Benchmark.CpuModel), the options of bench/cache_benchmark.cpp (Benchmark.Options), expected_result
--   (Benchmark.Workload) and the rest of
--   bench/benchmark_measurement.cpp with its two implementations of the cache
--   (Benchmark.Implementations) and its loops (Benchmark.Measurement). Benchmark.Sound states what
--   the loops ask of an implementation; Benchmark.SharedRuns and Benchmark.SocketRuns fill it.
-- Tests: runs of the definitions on small tables, and each result at a concrete input.
--
-- How the code is read. A pointer that may be null is an Option, with `none` for null; the int32_t
-- index that is -1 for absence is an Option as well. A function that mutates the region returns the
-- region after the call. What the environment answers is an argument: whether a lock call succeeds,
-- what time(nullptr) returns, and, between two critical sections of one call, the region that the
-- other processes left. A byte is a number below 256 and char is signed, as on x86-64. The size of
-- pthread_rwlock_t belongs to the C library and is a parameter, as is everything the operating
-- system returns; the theorems that need a bound on a size name it.
--
-- Bounds. uint32_t and uint64_t arithmetic wraps where the code's does. A slot index is an int32_t in
-- the code, so a well-formed table has fewer than 2^31 slots; the default table has 1000. Each loop
-- over the slots recurs on the rounds that are left, which start at the capacity, so no fuel is
-- chosen and each function returns on every input. The loop of transfer_all recurs on the answers of
-- its calls and is left waiting where they run out; the threads of the benchmark take one
-- operation at a time, in the order of a schedule that is an argument.
--
-- Not modelled: messages on the error stream; the rwlock itself, whose exclusion is what makes a
-- critical section one step; a process that dies inside a critical section; the process that reads
-- while another one initialises, beyond the header's magic number; the threads, clocks and
-- socketpairs of the benchmark and what it measures with them; its table of results
-- (bench/cache_benchmark.cpp); percentile, which sorts doubles; what is in memory behind a request
-- whose strings are not terminated; tests/; ui/.
pub mod Base
pub mod Text
pub mod Layout
pub mod Hash
pub mod Table
pub mod Lifecycle
pub mod Cache
pub mod Modify
pub mod Contract
pub mod Spec
pub mod Sharing
pub mod Telemetry
pub mod Bridge
pub mod Command
pub mod Demo
pub mod Socket
pub mod Legacy
pub mod Benchmark
pub mod Tests
