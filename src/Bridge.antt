-- ===== src/Bridge.antt =====
-- include/axi_dual_port_route_shape.h: the control logic of the dual-port bridge, as functions from a
-- cycle's signals to its decisions.
pub mod Route
pub mod Gate
pub mod Scan
pub mod Shape
pub mod Queue
pub mod Pack
mod Tests
