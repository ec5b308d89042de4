-- ===== src/Lib.antt =====
-- Verification of ep-demo: expert-parallel dispatch and combine over RDMA written from the GPU.
--
-- A rank keeps one buffer, which peers write into, in two halves (include/ep_buffer.h, BufferPair). The
-- kernels of src/ep_kernel.cu send the tokens of a rank to the ranks that own their experts, and bring
-- the results back. Queue pairs live in a control buffer whose space a small allocator hands out
-- (include/ep_ibgda/memheap.h); the host creates and connects them (src/ep_buffer.cpp,
-- src/ep_ibgda/mlx5gda.cpp), and the kernels write their entries and ring their doorbells.
--
-- Files:
--   Prelude        the names that all files share; Boolean tests, lists over native numbers, masks and
--                  powers of two, machine words with the wrap-around written out.
--   Memheap        include/ep_ibgda/memheap.h: `create`, `aligned_alloc`, `alloc`, `free`. The C
--                  functions' (size_t)-1 is `no_offset`, errno a component of the result.
--                  Memheap.Packed, Reuse and Again follow the table through requests and releases.
--   Layout         include/ep_buffer.h: `BufferLayout`, `BufferPair`, the size hint.
--   Kernel         src/ep_kernel.cu: the shape of a launch and the addresses of messages, rows and
--                  signals. Kernel.Finish is the counting protocol of `dispatch`, with the order of
--                  the entries in a queue pair, Kernel.Scales the places of the scales, Kernel.Clean
--                  the flag of `combine`, Kernel.Waits the waits for the signals of all experts,
--                  Kernel.Receive the reserved rows. Kernel.Memory is the memory of all ranks under
--                  writes in any order, and Kernel.Flow the way of the rows: Assign and Place for the
--                  slots and where messages land, Entries and Count for `topk_idx` and the counting
--                  warp, Gather for the packed output, Combine for the way back and the sum, Trip for
--                  the whole. Kernel.Stage is the writing of a message to the send buffer, with FP8 or
--                  without, Kernel.Combined the sum of a token as the threads of a block compute it
--                  and narrow it in place.
--   Warp           include/ep_utils.cuh: strided loops, the reduction of a warp, the unrolled copy.
--   Device         src/ep_kernel.cu: `device_byteswap`, the mutex, the send queue, the polling loop.
--   Launch         src/ep_kernel.cu: the host functions `dispatch` and `combine`.
--   Mlx5gda        src/ep_ibgda/mlx5gda.cpp: `round_up_pow2`, completion queues and queue pairs. What
--                  the driver, CUDA and the C library answer is a record of answers.
--   EpBuffer       src/ep_buffer.cpp: `findBestGidIndex`, `sync_ib`, `sync_roce`,
--                  `sync_nvlink_ipc_handles`, the queue pairs of a rank, and which of them serves
--                  which rank. EpBuffer.Object and EpBuffer.InitIbgda are the constructor, the
--                  destructor and `init_ibgda` by what they hold, EpBuffer.Contexts the contexts that
--                  the host copies to the device. EpBuffer.QueuePairs has the blocks of the queue
--                  pairs in the control buffer, at creation (Room) and when they are created again
--                  (Again); EpBuffer.Getters what the callers are told of them; EpBuffer.Connect the
--                  commands of the three transitions, with the states they lead through (Life) and
--                  both ends of a connection (Mesh); EpBuffer.Handles and Peers `get_ipc_handle`, the
--                  handles that peers open and the pointers that are closed.
--   Tests          the statements at concrete inputs.
--
-- Numbers are natural numbers with the wrap-around of their C type; pointers are 64-bit numbers. The
-- warps of a launch are step relations (Kernel.Finish, Kernel.Clean, Kernel.Waits, Device.Mutex): each
-- atomic access is one step, in any order; weaker memory orders are not modelled. That the adapter
-- executes the entries of a queue pair in order is how Kernel.Finish.Order reads its queue. The
-- polling loop runs on fuel, and its theorem gives the fuel that is enough; `round_up_pow2` gets fuel
-- 33, and its theorem shows that this is enough for every size that the sources pass.
--
-- In Kernel.Flow a rank's memory is a function from addresses to the message or row whose first byte
-- is there; a write tears every other cell that it overlaps, which then holds an arbitrary value. The
-- claims of all ranks are one list in the order of the atomic additions, and every order is allowed.
-- Every source is received, so no wait ends by time; Kernel.Waits has that case. The sum of a token is
-- over abstract operations, in the order of the source.
--
-- Not modelled: floating-point arithmetic, which is a parameter of Kernel.Stage and Kernel.Combined,
-- the fences and barriers between the steps of a kernel, PTX, the NIC and the driver, logging, the
-- getters of the EpBuffer object that return a field, the functions of include/ep_utils.cuh that
-- nothing calls, and the vendored headers include/ep_ibgda/mlx5_ifc.h and mlx5_prm.h.
pub mod Prelude
pub mod Memheap
pub mod Layout
pub mod Warp
pub mod Kernel
pub mod Device
pub mod Launch
pub mod Mlx5gda
pub mod EpBuffer
mod Tests
