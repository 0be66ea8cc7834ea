-- ===== src/MmioDevice.antt =====
-- mmio/include/MMIO_Device.h: the interface of the devices on the MMIO bus. A device pointer is an
-- index; `State` is the state of all the devices together.
use axi_interconnect_kit.Prelude.{ℕ, List}

pub record Devices : Type 1 where
  pub State : Type 0
  -- The bytes that `read` stores from the buffer's start on.
  pub read : ℕ → ℕ → ℕ → State → List ℕ × State
  pub write : ℕ → ℕ → List ℕ → ℕ → State → State
  pub tick : ℕ → State → State
