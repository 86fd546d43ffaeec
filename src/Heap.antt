-- ===== src/Heap.antt =====
-- src/runtime/heap.cpp, src/include/vpp/runtime/heap.h and the values of src/include/vpp/runtime/value.h
-- that the collector follows.
pub mod Value
pub mod Graph
pub mod Mark
pub mod Registry
pub mod Collect
pub mod TrackValue
pub mod Integers
mod Tests
