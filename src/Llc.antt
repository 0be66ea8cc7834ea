-- ===== src/Llc.antt =====
-- axi_interconnect/AXI_LLC.{h,cpp}: the last-level cache between the interconnect and memory. The
-- configuration, the build's limits and the masters. An `int` slot is an Option, -1 is `none`.
pub mod Address
pub mod Bytes
pub mod Ports
pub mod Regs
pub mod Meta
pub mod Mshr
pub mod Pending
pub mod Ways
pub mod Queues
pub mod Prefetch
pub mod Accept
pub mod Refill
pub mod Reset
pub mod WritePath
pub mod Lookup
pub mod Comb
pub mod Frame
mod Tests
mod Scenarios
use axi_interconnect_kit.Prelude.Words.{u32}
use axi_interconnect_kit.Prelude.{ℕ, Bool, ◌*◌, ◌/◌, ◌%◌, ◌==◌, ◌&&◌, not, if◌then◌else◌}

-- AXI_LLCConfig. `lookup_latency`, `nine`, `unified` and `pipt` are read by nothing in the cache.
pub record Config : Type 0 where
  pub enable : Bool
  pub size_bytes : ℕ
  pub line_bytes : ℕ
  pub ways : ℕ
  pub mshr_num : ℕ
  pub lookup_latency : ℕ
  pub prefetch_enable : Bool
  pub prefetch_degree : ℕ
  pub nine : Bool
  pub unified : Bool
  pub pipt : Bool

-- The build's limits MAX_OUTSTANDING, MAX_WRITE_OUTSTANDING and MAX_WRITE_TRANSACTION_BYTES, and its
-- options CONFIG_AXI_LLC_BYPASS_DIRECT_RESP, CONFIG_AXI_LLC_BYPASS_DIRECT_ISSUE and
-- AXI_KIT_LLC_DCACHE_READ_MISS_NOALLOC.
pub record Limits : Type 0 where
  pub max_outstanding : ℕ
  pub max_write_outstanding : ℕ
  pub max_write_transaction_bytes : ℕ
  pub bypass_direct_resp : Bool
  pub bypass_direct_issue : Bool
  pub dcache_read_miss_noalloc : Bool

abbrev pub num_read_masters : ℕ
num_read_masters = 4

abbrev pub num_write_masters : ℕ
num_write_masters = 2

abbrev pub master_dcache_r : ℕ
master_dcache_r = 1

-- MAX_READ_TRANSACTION_WORDS, of 256 bytes.
abbrev pub max_read_transaction_words : ℕ
max_read_transaction_words = 64

unfoldable pub is_valid : Config → Bool
is_valid config =
    not (config.line_bytes == 0)
    && (not (config.ways == 0)
        && (not (config.mshr_num == 0)
            && config.size_bytes % (config.line_bytes * config.ways) == 0))

unfoldable pub set_count : Config → ℕ
unfolding is_valid
set_count config =
    if not (is_valid config) then 0 else u32 (config.size_bytes / (config.line_bytes * config.ways))
