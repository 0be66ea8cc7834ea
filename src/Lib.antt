-- ===== src/Lib.antt =====
-- Models and theorems for the AXI interconnect kit: an AXI4 memory subsystem for a cycle-based
-- simulator. Every component is clocked by its caller in the same three steps: `comb_outputs` drives
-- the signals towards the master, `comb_inputs` those towards the slaves, and `seq` is the clock edge.
--
-- The parts and their files:
-- Axi: the channels of sim_ddr/include/SimDDR_IO.h. A wire of one bit is a Bool, a wider one a
--   natural number. `offer` puts a master's signals on an interface and leaves the slave's.
-- MmioMap: include/axi_mmio_map.h, the addresses that belong to MMIO.
-- Router: axi_interconnect/AXI_Router_AXI4.{h,cpp}, from one master to the DDR and MMIO slaves.
--   `init`, `comb_outputs`, `comb_inputs` and `seq` are the methods of that name. Router/Cycle runs
--   them in the caller's order, Router/Routing is about one pass, Router/Owner about runs.
-- Uart: mmio/UART16550_Device.{h,cpp}. Standard output is a list of bytes. Uart/Transmit is about
--   what is printed, Uart/Registers about the registers.
-- MmioDevice: mmio/include/MMIO_Device.h, the interface between the bus and its devices, a record
--   that the bus takes as a parameter; the tests instantiate it with the UART.
-- MmioBus: mmio/MMIO_Bus_AXI4.{h,cpp}. The stages of `MMIO_Bus_AXI4::seq` are definitions of their
--   own, composed by `seq` in the order of the source. MmioBus/Invariant, MmioBus/Progress,
--   MmioBus/Stable, MmioBus/Beats and MmioBus/Decode hold the theorems.
-- Bridge: include/axi_dual_port_route_shape.h, the control logic of the dual-port bridge. Its
--   functions stand in Bridge/Route (ports, beats, IDs), Bridge/Gate (issue and response gates),
--   Bridge/Scan (the pending tables), Bridge/Shape (issued windows), Bridge/Queue (acceptance and
--   queue pointers) and Bridge/Pack (bytes of a line), each with its Laws where it has some.
-- SimDdr: sim_ddr/SimDDR.{h,cpp}, the DDR slave. SimDdr/Memory has the memory accesses and those of
--   include/PhysMemory.h, SimDdr/Writes and SimDdr/Reads the combinational logic of the two
--   directions, SimDdr/Seq the stages of `SimDDR::seq`. SimDdr/Memory/Laws, SimDdr/Reads/Select,
--   SimDdr/Reads/Arbitration, SimDdr/Laws/Order and SimDdr/Laws/Bounds hold the theorems.
-- Llc: axi_interconnect/AXI_LLC.{h,cpp} and AXI_LLC_Config.h, the last-level cache. Llc/Ports and
--   Llc/Regs have its ports and registers, as records of functions of the master or the slot; an `Io`
--   holds the registers of the cycle's start, `regs`, and those of its end, `reg_write`. Llc/Address
--   has the fields of an address, Llc/Bytes the bytes of lines and rows, Llc/Meta the metadata,
--   Llc/Mshr the searches in the miss registers, Llc/Pending the hazards of a line (Pending/Quiet: in
--   terms of the registers), Llc/Ways the choice of a way, Llc/Queues the queues of responses,
--   victims and writes, Llc/Prefetch the prefetcher, Llc/Accept the requests that take the lookup and
--   the read of the tables, Llc/Refill `drive_mem_read_path`, whose commit is Llc/Refill/Commit,
--   Llc/WritePath `drive_write_path`, whose second half is Llc/WritePath/Issue, and Llc/Reset the
--   initial values, the disabled outputs and the clock edge. Llc/WritePath/Laws has the queue of the
--   writes of a master. Llc/Lookup is `try_complete_lookup`, whose paths are Llc/Lookup/Hit,
--   Llc/Lookup/WriteMiss and Llc/Lookup/ReadMiss, and Llc/Comb the cycle, `comb`. Llc/Frame and the
--   modules named Frame say what each phase leaves of the miss registers and the queues of responses;
--   Llc/Lookup/Distinct, Llc/Lookup/Outcome and Llc/Comb/Sound put them together. The tables are the
--   environment's: a cycle is given the rows that it reads. An abort of the program is `none`.
-- Interconnect: axi_interconnect/AXI_Interconnect.{h,cpp}, above the cache and the two ports. Its
--   registers and the masters' ports are in Interconnect/State, with the cache's `Io` as one of them.
--   Interconnect/Modes has the modes, their change at the end of `seq` and the window that mode 2 maps
--   onto the cache, Interconnect/Ids the AXI IDs and the transactions in flight, Interconnect/Hazards
--   the tests for another request to the same line, which use Bridge/Gate, Interconnect/Quiescence the
--   tests that nothing is under way, and Interconnect/Writes the buffers of write responses,
--   `comb_write_response`, and the stages of `seq` from the B handshakes to the promotion of the next
--   response, in the modes without the cache. Each has its Laws; Writes/Search, Writes/Handshake,
--   Writes/Frame, Writes/Cycle and Writes/Outcome take one cycle of the responses apart and put it together.
-- Prelude: Booleans and tests, lists over the native numbers, the bytes and bits of words, loops
--   that search (Search), fixed arrays (Arrays) and ring buffers (Rings).
--
-- Machine words are natural numbers with their wrap-around written out (`u8`, `u16`, `u32`, `u64`,
-- `sub32`). Loops are structural: over a list, or over the count of rounds that the source's bound
-- gives, so no loop runs out of fuel. The build's constants are parameters: the MMIO range, the bytes
-- of a beat, the queue depths, latencies, gaps and watermarks of the DDR, and the depths and options
-- of the cache, whose configuration is a parameter too. Shifts beyond the width of a word, which C++
-- leaves undefined, have no counterpart in the models.
--
-- Not modelled: of axi_interconnect/AXI_Interconnect.cpp the arbiter of the reads and the read
-- responses, the staging of requests for the cache, `comb_write_request`, and the other stages of
-- `seq`, all of them callers of the modelled functions; the templates of
-- include/axi_interconnect_compat.h over the representations of wires, in whose place stand the
-- bytes and bits of a number; trace and debug prints; the demonstration processor under demos/ and
-- the test benches.
pub mod Prelude
pub mod Axi
pub mod MmioMap
pub mod Router
pub mod Uart
pub mod Bridge
pub mod MmioDevice
pub mod MmioBus
pub mod SimDdr
pub mod Llc
pub mod Interconnect
