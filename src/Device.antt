-- ===== src/Device.antt =====
-- src/ep_kernel.cu: the functions that drive a queue pair from the device.
pub mod Bytes
pub mod Mutex
pub mod Queue
pub mod Poll
