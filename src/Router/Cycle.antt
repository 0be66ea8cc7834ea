-- ===== src/Router/Cycle.antt =====
-- A clock cycle of the router between its environment's signals: the phases in the order in which
-- the simulator runs them, and runs of many cycles.
use axi_interconnect_kit.Prelude.{List, [], ◌∷◌}
use axi_interconnect_kit.Axi.{Io, offer}
use axi_interconnect_kit.MmioMap.{MmioRange}
use axi_interconnect_kit.Router.{Router, Ports, comb_outputs, comb_inputs, seq}

-- What the environment drives in a cycle: the slaves' interfaces before phase 1, and the master's
-- signals between the phases.
pub record Drive : Type 0 where
  pub master : Io
  pub before : Ports

module _ (config : MmioRange) where
  -- The signals at the clock edge.
  unfoldable pub settle : Router → Drive → Router × Ports
  settle s d =
      let (s', p) = comb_outputs s d.before in
      (s', comb_inputs config s' (record p { up = offer d.master p.up }))

  unfoldable pub cycle : Router → Drive → Router
  cycle s d = let (s', p) = settle s d in seq config s' p

  unfoldable pub run : Router → List Drive → Router
  run s [] = s
  run s (d ∷ ds) = run (cycle s d) ds
