-- ===== src/MmioMap/Tests.antt =====
-- include/axi_mmio_map.h at concrete inputs.
use axi_interconnect_kit.MmioMap.{MmioRange, is_mmio_addr}
use axi_interconnect_kit.Prelude.{false, refl, true, ◌≡◌}

abbrev config : MmioRange
config = record { base = 0x10000000; size = 0x1000 }

inside : is_mmio_addr config 0x10000fff ≡ true
unfolding is_mmio_addr
inside = refl

outside : is_mmio_addr config 0x10001000 ≡ false
unfolding is_mmio_addr
outside = refl
