-- ===== src/MemoryController.antt =====
-- src/MemoryController.h and src/MemoryController.cpp: the controller of one channel.
pub mod Decode
pub mod State
pub mod Returns
pub mod Enqueue
pub mod Update
pub mod Commands
pub mod Requests
pub mod Connect
pub mod ConfigFile
