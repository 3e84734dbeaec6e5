-- ===== src/Examples/Data.antt =====
-- A host, a disk and a joined client and server for the examples.
use cncremote.Prelude.{
  ℕ, ℤ, pos, ◌≡◌, refl, ap, Bool, true, Bytes, codes, [], ◌∷◌, Option, none, some, length,
}
use cncremote.Sample.{whole_numbers, Tree}
use cncremote.Server.Stdio.{Disk}
use cncremote.Server.Files.{Host}
use cncremote.Server.Files.Blocks.{IsReceiving}
use cncremote.Client.Session.{Session, new_client}
use cncremote.Network.{Net}
use cncremote.Network.Polls.{OnlyReports}
use cncremote.Sim.{Sim, Machine, new_sim}
use cncremote.Sim.Members.{sim, update_state}

abbrev pub unused : Option Bytes → Bytes → Option Bytes
unused none t = some t
unused (some content) t = none

pub unused_fresh :
    (old : Option Bytes) (t p : Bytes) → unused old t ≡ some p → (old ≡ none) × (p ≡ t)
unused_fresh none t p e = (refl, cc)
unused_fresh (some content) t p e = absurd cc

-- The name made is the template itself, if no file has it.
abbrev pub host : Host
host = record {
  mkstemp = λ files t. unused (files t) t;
  fdopen_works = λ path. true;
  mkstemp_fresh =
      λ files t p e. rw ((unused_fresh (files t) t p e).1) ((unused_fresh (files t) t p e).0);
  mkstemp_length = λ files t p e. ap length (unused_fresh (files t) t p e).1;
}

abbrev pub disk : ℕ → Disk
disk space = record { files = λ _. none; streams = []; space = space }

abbrev pub machine : Sim ℤ
machine = new_sim (disk 100)

-- The files with a name of one letter have one byte.
abbrev pub one_letter : Bytes → Option Bytes
one_letter [] = none
one_letter (b ∷ []) = some (9 ∷ [])
one_letter (b ∷ c ∷ rest) = none

-- A transfer into the file "t", of which one byte has come.
abbrev pub filling : Bool → Sim ℤ → Sim ℤ
filling is_open s = record s {
  disk = record {
    files = λ path. one_letter path;
    streams = record { path = codes "t"; is_open = is_open } ∷ [];
    space = 20000;
  };
  file = some 0;
  cur_file = codes "t";
}

pub receiving : IsReceiving (codes "t") (9 ∷ []) (pos 0) 20000 (filling true machine)
unfolding new_sim
receiving = record {
  handle = 0;
  file = refl;
  stream = refl;
  content = refl;
  turn = refl;
  space = refl;
  name = refl;
}

pub sim-OnlyReports : OnlyReports {W = ℤ} sim
unfolding sim update_state
sim-OnlyReports = record {
  keeps = λ s. record { disk = refl; file = refl; cur_block = refl; cur_file = refl };
}

abbrev pub session : Session ℤ Tree (Net ℤ Tree (Machine ℤ))
session = record {
  client = new_client (pos 0) (pos 0) (pos 0);
  world = record { server = machine; mailbox = [] };
}
