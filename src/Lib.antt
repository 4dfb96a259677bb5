-- ===== src/Lib.antt =====
-- CoroGraph: graph algorithms whose edges are stored by destination partition, and processed in
-- priority order by worker threads.
--
-- The program loads a graph in CSR form and `partition` (libcoro/include/galois/graphs/
-- Partition_Graph.h) lays its edges out again: for each vertex, consecutive edges into one partition
-- are a run; a short run is stored as pairs of words in the record of the vertex and then in
-- `pledge`, a long one in `highedge` behind a header word. The executor (libcoro/include/galois/
-- runtime/Executor_ForEach.h) takes chunks of pending vertices from a priority work list, scatters
-- each vertex's runs to the queues of their partitions, and gathers a partition's items by relaxing
-- their edges, which pushes the vertices that improved. An application supplies the relaxation, as
-- app/sssp/crg-sssp.cpp does. The threads stop when the ring of libcoro/include/galois/substrate/
-- Termination.h says so.
--
-- The modules:
--   Base: names that the others share, tests and conditionals, lists with native indices, maps, the
--     64-bit, 32-bit and 16-bit words, bits.
--   Partition: the fields of `graph`, `vtxArr` and the constants. Partition/Scan is the loop over
--     the edges of a vertex that both passes of `partition` run, Partition/Count the counting pass
--     and the layout of the vertices, Partition/Fill the storing pass and `partition` itself;
--     Partition/RoundTrip says which graphs the format describes.
--   Executor: what `coro_scatter` and `coro_gather` read from these arrays, and with
--     Executor/RoundTrip that these are the edges of the graph.
--   Sssp: `SSSP_F` and the search as a step relation: any pending item or edge may be next, which
--     covers every order of the priority queue, the partitions and the threads, given that one
--     thread gathers a partition at a time.
--   Components: `cc` of app/cc/crg-cc.cpp as a step relation over the accesses of its threads:
--     Components/Invariant, kept by the steps (Components/Kept) and so in every state that is reached
--     (Components/Reached), gives the labels with which it returns (Components/Correct);
--     Components/Measure and Components/Terminates are about its end.
--   Worklist/LinkedQueue: `ConExtLinkedQueue2` and `ConExtLinkedQueue` of libcoro/include/galois/
--     worklists/WorkListHelpers.h, nodes as addresses; Owner is the use that `OBIM` (Obim.h, Obim2.h)
--     makes of them to have one owner per partition.
--   Worklist/Chunk: `FixedSizeRing2` (libcoro/include/galois/FixedSizeRing.h) and `ChunkMaster2`
--     (worklists/Chunk.h), over the linked queue.
--   Worklist/Sockets: the scan over the queues of all sockets of `popPart` (worklists/Obim.h) and
--     `popChunk` (worklists/Chunk.h).
--   Worklist/Obim: the master log of `OBIM` (worklists/Obim.h) and the maps of the threads, which
--     give each priority its bag; Obim/Push is `push` up to the bag that gets the item, Obim/Pop the
--     pops, over what a bag promises (Obim/Pop/Scan), which the bags keep (Obim/Pop/Bag).
--   Worklist/Master: `ChunkMaster` (worklists/Chunk.h), the bag of one priority.
--   DoAll: the parallel loop with stealing of libcoro/include/galois/runtime/Executor_DoAll.h as a step
--     relation: DoAll/Ranges are the local ranges of the vertices, of app/cc/crg-cc.cpp and libcoro/
--     include/galois/graphs/Details.h, DoAll/Split what is taken off a range, DoAll/Invariant and
--     DoAll/Kept say where each element is, for DoAll/Once; DoAll/Alone and DoAll/Finish are about the
--     end of the loop. Components is a loop of this kind, seen at the accesses of its body.
--   Divide: the division of nodes among threads by weight, of libcoro/include/galois/graphs/
--     GraphHelpers.h: Divide/Search is the binary search, Divide/Sums and Divide/Blocks the weights,
--     Divide/Shares `divideNodesBinarySearch`. Divide/Units is the vector of ranges of the units,
--     with the corner cases and assertions of libcoro/src/GraphHelpers.cpp.
--   Endian: the byte orders of libcoro/include/galois/Endian.h, and words in a memory of bytes.
--   FileGraph: the binary graph files of libcoro/src/FileGraph.cpp. FileGraph/Words and
--     FileGraph/Layout say what writing leaves in memory, FileGraph/Arrays where the parts of a graph
--     lie, FileGraph/Reads what the accessors read; FileGraph/Block is about the size of the block,
--     FileGraph/Part about a part of a file, FileGraph/Neighbors about the search of an edge.
--   RingDeque: `FixedSizeRing` (libcoro/include/galois/FixedSizeRing.h): RingDeque/Contents is the list
--     that a ring holds, RingDeque/Ends and RingDeque/Refines what its operations do to the list,
--     RingDeque/Whole the constructor and `clear`.
--   FlatMap: libcoro/include/galois/FlatMap.h, the map from priorities to bags.
--   Atomic: `atomicMin` of libcoro/include/galois/AtomicHelpers.h under interleaving.
--   Termination: `LocalTerminationDetection` of libcoro/include/galois/substrate/Termination.h;
--     Termination/Quiet is its safety and Termination/Live its progress.
--   UnionFind: the tree nodes of libcoro/include/galois/UnionFind.h.
--
-- Conventions. A `uint32` is a number, and arithmetic on it is reduced by `u32` where it can wrap. A
-- pointer is an address, 0 the null pointer. Memory that the code allocates, and what it holds
-- before it is written, are arguments. Operations that hold a lock, and calls that only one thread
-- can make at a time, are single steps.
--
-- Fuel. The loop that computes `nlog` runs on fuel 32, the width of `pow2`: it shifts `pow2` at most
-- 31 times before it exceeds a number below 2^31. The scan of a vertex runs on the number of its
-- edges, since `e` grows in each iteration; the loops over pairs on the number of words, since `e`
-- grows by two; the binary search on the length of its range, which each round shortens;
-- the walks of union-find on the address they start from, since links lead down. All other
-- recursion is structural.
--
-- Not modelled: opening and writing of graph files and their text form, the other applications and
-- parallel loops, memory, barriers and threads of the runtime, and output. Prefetches and the suspension points of
-- coroutines have no effect on what is computed.
pub mod Atomic
pub mod Base
pub mod Components
pub mod Divide
pub mod DoAll
pub mod Endian
pub mod Executor
pub mod FileGraph
pub mod FlatMap
pub mod Partition
pub mod RingDeque
pub mod Sssp
pub mod Termination
pub mod UnionFind
pub mod Worklist
