-- ===== src/Examples/Rivals.antt =====
-- A second client starts a transfer while one is under way.
use cncremote.Prelude.{ℤ, pos, refl, true, codes, [], ◌∷◌}
use cncremote.Sample.{whole_numbers}
use cncremote.Server.Files.Blocks.{IsReceiving}
use cncremote.Sim.{Sim, new_sim}
use cncremote.Examples.Data.{machine, filling}

-- The transfer into "t" after its first block.
abbrev further : Sim ℤ
further = record (filling true machine) { cur_block = pos 1 }

going_on : IsReceiving (codes "t") (9 ∷ []) (pos 1) 20000 further
unfolding new_sim
going_on = record {
  handle = 0;
  file = refl;
  stream = refl;
  content = refl;
  turn = refl;
  space = refl;
  name = refl;
}
