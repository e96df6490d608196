-- ===== src/Plenum.antt =====
-- plenum/: programs from the plenary sessions. `FirstFit` is the memory allocator of plenum/uke8/.
pub mod Arp
pub mod DiskHead
pub mod FirstFit
pub mod Networks
mod Examples
mod DiskHeadExamples
mod ArpExamples
mod NetworksExamples
