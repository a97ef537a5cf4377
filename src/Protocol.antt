-- ===== src/Protocol.antt =====
-- Host and device together: a submission of runtime/cira_mmio.cpp, its service by the firmware of
-- runtime/vortex_device.cpp, and the host's wait for it.
pub mod Handover
pub mod Install
pub mod Running
