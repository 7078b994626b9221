-- ===== src/Lib.antt =====
-- A model of the program that fills pages for the kernel's same-page merging,
-- evaluation_script/helpers/codes/basic-inputpages-pin.c, and of the benchmark programs under
-- benchmarks/: the B+ tree of the btree workload, the option table, configuration files, counters and
-- histogram of sysbench, and the random numbers and grid searches of XSBench. The programs run apart
-- from each other, as loads of the machine, and share no code.
--
-- The program that fills pages. Pages.antt has it as a machine: a process is where it stands in
-- `main`, its memory and its output, and `step` is `main` up to its first loop, one round of that
-- loop, or one round of the endless loop. `atoi` and `mmap` are parameters, the first giving the
-- 32-bit pattern of an `int`, the second an address or an error. The memory is the `int` at each
-- address; a write where there is none is the signal. `unsigned long` and `uint64_t` are numbers below
-- 2 ^ 64 with the wrap-around written out. There is no fuel: `run` counts steps, and Pages/Run says how
-- many are enough. Pages/Populate has the loop, Pages/Run whole runs, Pages/Failure those that fail,
-- Pages/Reach the states that can be reached, Pages/Size the sizes, Pages/Content and Pages/Merge
-- which of the pages have the same content. What the kernel does with such pages is not modelled: its
-- source is not in the repository.
--
-- The B+ tree, benchmarks/btree/btree.c. One process builds a tree and then looks keys up in it.
-- BTree/Store has its memory: nodes and records by address, the globals `order`, `free_nodes`,
-- `free_recs`, `queue` and `allocator_stat`, and a monad in which an access through a pointer that
-- leads to no object, or past the end of an array, is the outcome `fault`, and `exit` is `exited`.
-- The addresses that posix_memalign returns are the list `supply`; it fails at the list's end.
-- BTree/Alloc has the allocators (allocate to make_leaf), BTree/Find the searches (enqueue to cut),
-- BTree/Entries the steps of insertion in one node, BTree/Insert the splits and `insert`,
-- BTree/Shrink the steps of deletion, BTree/Delete its climb and `delete`, each function under its
-- name in the C file; a loop is a function of its own that counts its rounds. BTree/Tree defines what
-- it means that a pointer leads to a tree with given entries; the files below it relate the code to
-- these entries: BTree/Tree/Owned also names the addresses of the tree's nodes, BTree/Tree/Edit and
-- BTree/Tree/Descent say how a change of one leaf changes the whole, and BTree/Tree/Growth and
-- BTree/Tree/Deletion have `insert` and `delete` where no node is split or merged, BTree/Tree/Split has
-- the split of a leaf and BTree/Tree/NewRoot the new root above two trees. BTree/Tree/Nest takes an
-- internal node apart into its first pointer and its keys with the pointers on their right, and
-- BTree/Tree/Linked has whole well-formed trees (arrays of the order's lengths, parents, sorted entries)
-- with the free nodes beside them: its files follow `insert` down to the leaf and up through the splits
-- of nodes to a new root. BTree/Map says which map from keys to values the memory stands for, and has
-- `find` and `insert` as the operations of that map. BTree/Rand48 is the generator at the end of the
-- file, word by word, and BTree/Workload the loops of `main`, which fill the tree and look keys up;
-- BTree/Map/Filled and BTree/Map/Lookups are about these loops with at most 104 keys, which the first
-- slab of nodes is enough for at any order.
-- The first insertion takes a slab of 16384 records and one of 5461 nodes (BTree/Map/Slabs and
-- BTree/Map/Initial); in the later ones the free lists hold what they take, and the system has memory
-- for the arrays. A later slab in the course of a split is not covered.
-- A node's two arrays are part of the node, since no code shares them. `main` sets `order` to
-- 16 before it builds the tree, so that `order - 1` is positive; a node's index that may be -1 is its
-- `uint64_t` value.
-- Fuel: `find_leaf`, `find` and `height` take one unit for each level and one for the leaf, the climbs
-- of insertion and deletion one for each level. BTree/Tree/Search has the bound for the search,
-- BTree/Map/Insertion for `insert`, where more fuel than the tree is high is enough, and BTree/Map/Run for
-- a sequence of insertions, each of which makes the tree at most one level higher.
--
-- The option table, benchmarks/sysbench/src/sb_options.c. Options.antt has the table, a list of options
-- by name, and the search up to dashes and underscores; Options/Table `set_option`,
-- `sb_register_arg_set` and `sb_opt_copy`; Options/Size `sb_opt_to_size`; Options/Config `read_config`
-- and `write_config`. Strings are lists of bytes, a file is its text, which `read_config` takes in
-- the buffers of at most 255 bytes that fgets returns, and memory allocation succeeds. `read_config`
-- is called by `set_option` for options that name a file; the files of the system are a parameter
-- there.
--
-- The statistics of sysbench. Sysbench/Counter has the counters of
-- benchmarks/sysbench/src/sb_counter.c and sb_counter.h, Sysbench/Counter/Reports runs with reports.
-- Sysbench/Histogram has the latency histogram of benchmarks/sysbench/src/sb_histogram.c, with its
-- floating-point computations as parameters, and Sysbench/Histogram/Events runs of updates and
-- reports. The atomic instructions are the steps: an increment of a counter is a load and a later
-- store, each worker has a slot of its own, the background threads share one that no report reads,
-- and what other threads do before each load of a report, or each fetch of a cell of the histogram,
-- is an argument of the report. A lock keeps the reports of the histogram apart from each other.
--
-- XSBench, benchmarks/XSBench/src/Simulation.c: XsBench/Lcg has one step of the generator and the
-- jump over n steps, with 64 rounds for a number of 63 bits; XsBench/Grid the two binary searches,
-- for any type of energies with a comparison.
--
-- Not modelled: the scripts that run experiments, printing, the drivers' input, the parallel lookups of
-- a build with OpenMP, destruction of a tree, threads and clocks, conversions to and from floating
-- point, the other programs under benchmarks/ (NPB, randomAccess, helperPrograms), the database
-- drivers, Lua and the third-party libraries of sysbench.
--
-- Base has the numbers, tests and lists that all parts share. The files called Tests hold concrete
-- data and one application to it of each theorem of the list below that has conditions.
pub mod Base
pub mod Pages
pub mod BTree
pub mod Options
pub mod XsBench
pub mod Sysbench
