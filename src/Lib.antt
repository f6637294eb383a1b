-- ===== src/Lib.antt =====
-- ASU-Ascend keeps the key-value cache of an inference server in three places: the high-bandwidth
-- memory (HBM) of the device, where a table gives tokens their slots; the host, which decides what
-- is evicted; and MicroKV, a key-value store behind a socket, which keeps what was evicted. This
-- library models the Python code that states and simulates these parts. A function that raises
-- returns a sum of the error and the result; a function that changes an object takes the object and
-- returns it, also where it raises.
--
-- Lookup: pta-ops/asu_hbm_index_lookup_simt/python/lookup_lru_reference.py.
--   `lookup_allocate_evict` is the reference of the device operator. LookupState holds the two tables
--   and the LRU list as in the source, with -1 for an empty entry. The function is the checks, `scan`
--   (first loop), `hits_of` and `evictable_of`, `install_all` (second loop), `resolve` (third loop) and
--   the new LRU list. A set is the list of what was added to it; only membership is asked. `sorted` is
--   an insertion sort, since Python's result is the only sorted list of its numbers. Lookup/Spec states
--   the invariant IsValid (the tables are inverse to each other, the list is a permutation of the slots)
--   and says, without the loops, what a query asks for: absent_tokens, queried_slots and free_slots.
--   Order, Tables, Loop and Scanning prove the lemmas of the loops; Correct, Answers and Capacity the
--   theorems.
-- Cache: simu/kv_cache_eviction_sim.py, LRUManagedCache and QueryStats.
--   The OrderedDict is a list of pairs, the least recently used first; the free slots are a stack with
--   its top first, where Python's list has it last. Cache/Valid has the invariant: every slot is free
--   or resident, exactly once. `prepare_loop` is structural in the residents, of which each round
--   removes one, so it needs no fuel.
-- Simulation: simu/kv_cache_eviction_sim.py, SimulationConfig, validate_config and run_simulation.
--   It runs the cache over a workload. The workload generator (class TopKWorkload) draws random numbers
--   and is a parameter, the record Workload; the floats are a parameter that is only compared, the
--   record Floats. StepStats extends QueryStats, here by a field. `rounds` is the length of a `range`.
-- MicroKv: MicroKV/python/microkv/client.py.
--   Wire has the errors and Python's `struct` for little-endian numbers, Keys the validators and
--   make_key with SHA-256 as a parameter, Payload the parsers of the batch answers, Socket the reading
--   of a stream that comes in chunks of any size, and Client the methods of KVStoreClient. The other end
--   of the socket is a parameter, the record Peer: a state, and the chunks that answer a message.
--   Payload also has the payloads that MicroKV/src/server.cpp builds for BatchGet and BatchExists.
-- Hbm: ops/scripts/asu_hbm_index_common.py, expected_lookup_allocate, hash32 and expected_maintain.
--   What the two operators for the device must compute. The arrays have one row for each request, and
--   the code treats the rows one by one, so a Row has the entries of one request in every array.
--   SLOT_COUNT is a parameter. Hbm/Ready has the invariant IsReady, Rows the lookup of a query, and
--   Maintain the loop that refills the free list. `while head > 0` has no bound of its own and runs on
--   fuel: SLOT_COUNT rounds are one turn over the slots, which is enough if as many slots can be given
--   up as are missing (Maintain/Refills).
--   Cycle has one lookup and the refill behind it: a count of the slots that hold a token takes the place
--   of the order in which the loop visits them (Maintain/Enough). Hbm/Cases makes the rows that the
--   operators are tried on (make_index_case, make_query, evict_slots_from_ratio, make_maintain_case and
--   make_chained_maintain_case); the five sizes are the record Sizes, with the source's as source_sizes,
--   and the ratio, a float, is the record Ratios. Cases/Runs runs the two expectations on them.
-- Workload: pta-ops/asu_hbm_index_lookup_simt/python/random_workload.py.
--   The random states and queries of the SIMT operator. Python's generator is the record Random of
--   Common/Random, with what its documentation promises of sample and shuffle. A count that
--   validate_hit_count lets through is passed on as a natural number. Workload/Seeds is about row_seed,
--   Workload/Cases about the cases, on which the reference of Lookup is run.
-- Scripts: pta-ops/asu_hbm_index_lookup_simt/scripts.
--   lookup_simt_common.py in Scripts and Scripts/Library, validate_lookup_simt.py in Scripts/Validate,
--   bench_lookup_simt.py in Scripts/Bench and profile_lookup_simt.py in Scripts/Profile, up to the clocks
--   and what is printed. The device is the record Runtime: the operator is any function on the tensors,
--   and Scripts/Device says by Agrees what two theorems ask of it: that on fresh states of random cases,
--   called for all their requests, it leaves what the reference computes. Files and Disk are the file
--   system. A launch is kept as the state that it leaves. `while completed < args.rounds` runs on
--   fuel, one round for each round asked for, since each batch completes at least one.
-- HbmOps: ops/scripts/asu_hbm_index_common.py (its second half) and validate_hbm_index_ops.py.
--   HbmOps has the search for libraries, plugins and torch operators, with the order in which they are
--   tried and the errors that are caught, and HbmOps/Registered and HbmOps/Resolve when it finds no
--   operator; HbmOps/Validate runs the two operators on a case of Hbm/Cases and
--   compares what they leave with the expectations; HbmOps/Bench is bench_hbm_index_ops.py, with the states
--   that its timed calls start from and leave. Host (files, modules, torch.ops) and Device (the stream, the
--   operators as functions on the tensors, and whether a clock measures no time) are parameters.
-- Common: the result of a function that may raise, lists with lengths in the native ℕ, Boolean
-- tests, Python's integers, and their lemmas.
--
-- Python's integers are ℤ where the code can meet a negative one, and ℕ for lengths, counters and slots
-- that the code itself makes. Python's integers do not wrap, and `pack` refuses what does not fit its
-- width; what `ctypes.c_uint32`, `hash32` and `row_seed` cut off is written out. TypeErrors are ruled out by the types. Every loop but those
-- of Hbm/Maintain and Scripts/Bench is structural, on the query, on the residents, on a counter of requests
-- or on the bytes that remain to be read.
--
-- Not modelled: errors of the operating system in connect, send and recv; the random draws of
-- TopKWorkload; rates and times, which are floats, but for the
-- division by a time of zero; printing, the parsing of command lines beyond its
-- defaults, and the versions and names in the manifest of a profile; require_runtime, which imports torch;
-- the server's own loop and store (MicroKV/src, except the two payloads); the operators for the device
-- (ascend-ops, pta-ops/asu_hbm_index_lookup_simt/src), whose Python references state what they compute;
-- the main of ops/scripts/bench_hbm_index_ops.py, and the printing of torch's operators; simu/hbm_lookup_update; the patches and
-- the documents.
pub mod Common
pub mod Lookup
pub mod Cache
pub mod Simulation
pub mod MicroKv
pub mod Hbm
pub mod Workload
pub mod Scripts
pub mod HbmOps
