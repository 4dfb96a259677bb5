-- ===== src/Executor/RoundTrip.antt =====
-- From `partition` (libcoro/include/galois/graphs/Partition_Graph.h) to the edge map
-- (libcoro/include/galois/runtime/Executor_ForEach.h): no edge is lost, changed or invented.
