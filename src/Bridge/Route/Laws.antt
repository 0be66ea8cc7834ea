-- ===== src/Bridge/Route/Laws.antt =====
-- include/axi_dual_port_route_shape.h: the beats of a burst and its bytes.
use native.Mathlib.Nat.{div-add-mod', mod-lt}
use axi_interconnect_kit.Bridge.Route.{axi_len_for_beat_bytes}
use axi_interconnect_kit.Prelude.{arith, ℕ, ◌*◌, ◌+◌, ◌-◌, ◌/◌, ◌<◌, ◌≤◌, suc, zero, ◌%◌, ◌≡◌}

ceil_parts :
    (n b q r : ℕ)
    → 0 < b
    → 0 < n
    → q * b + r ≡ n + b - 1
    → r < b
    → (0 < q) × (n ≤ q * b) × ((q - 1) * b < n) × (q ≤ n)
ceil_parts n b zero r h k e l = absurd (omega arith)
ceil_parts n b (suc p) r h k e l = grind arith

ceil_div :
    (n b : ℕ)
    → 0 < b
    → 0 < n
    → let q = (n + b - 1) / b in (0 < q) × (n ≤ q * b) × ((q - 1) * b < n) × (q ≤ n)
ceil_div n b h k =
    ceil_parts n b ((n + b - 1) / b) ((n + b - 1) % b) h k (div-add-mod' (n + b - 1) b)
      (mod-lt (n + b - 1) h)

-- For a request of `total_size + 1` bytes, at most 256, the `axi_len + 1` beats hold all of them, and
-- one beat less would not; the length stays within its 8 bits.
pub axi_len_exact :
    (total_size beat_bytes : ℕ)
    → total_size < 256
    → 0 < beat_bytes
    → let len = axi_len_for_beat_bytes total_size beat_bytes in
      (total_size + 1 ≤ (len + 1) * beat_bytes) × (len * beat_bytes < total_size + 1) × (len < 256)
unfolding axi_len_for_beat_bytes
axi_len_exact total_size zero h b = absurd (omega arith)
axi_len_exact total_size (suc k) h b = ground (arith, ceil_div (total_size + 1) (suc k) b)
