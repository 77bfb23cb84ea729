-- ===== src/Graph.antt =====
-- graph/graph.c: the compute graph. Values and operations are numbered from 1: entry 0 of the lists is
-- there, as in the arrays, and is never used, so the next number is the length of the list.
pub mod Defs
pub mod Build
pub mod Topo
pub mod Reach
pub mod Lifetime
pub mod MemoryPlan
mod Tests
