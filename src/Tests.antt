-- ===== src/Tests.antt =====
-- The theorems at concrete inputs, and tests of the definitions by evaluation.
mod Memheap
mod Layout
mod Kernel
mod Finish
mod Device
mod Clean
mod Mlx5gda
mod EpBuffer
mod Launch
mod Flow
mod Waits
mod Warp
mod Stage
mod QueuePairs
mod Peers
mod Mesh
mod Combined
