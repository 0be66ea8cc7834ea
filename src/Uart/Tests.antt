-- ===== src/Uart/Tests.antt =====
-- mmio/UART16550_Device.cpp at concrete inputs.
use axi_interconnect_kit.Prelude.{ℕ, ◌≡◌, refl, List, [], ◌∷◌}
use axi_interconnect_kit.Uart.{new, close}
use axi_interconnect_kit.Uart.Transmit.{visible, puts, out-close-puts}

abbrev base_addr : ℕ
base_addr = 0x10000000

abbrev message : List ℕ
message = b'h' ∷ 27 ∷ b'i' ∷ 13 ∷ 10 ∷ b'!' ∷ []

message-visible : visible message ≡ b'h' ∷ b'i' ∷ 10 ∷ b'!' ∷ []
unfolding visible
message-visible = refl

out-close-puts_example : (close (puts message (new base_addr))).out ≡ b'h' ∷ b'i' ∷ 10 ∷ b'!' ∷ []
unfolding visible
out-close-puts_example = out-close-puts base_addr message
