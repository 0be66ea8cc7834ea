-- ===== src/SimDdr/Laws.antt =====
-- sim_ddr/SimDDR.cpp over clock cycles: the order of responses and the depths of the queues.
pub mod Order
pub mod Bounds
