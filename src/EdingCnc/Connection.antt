-- ===== src/EdingCnc/Connection.antt =====
-- `PollConnected` and `Poll` of drivers/EdingCNC402/EdingCNC.cpp.
pub mod Laws
use cncremote.Prelude.{
  ℕ, ℤ, suc, ltb, Bool, true, false, not, Bytes, List, Option, none, some, Exec, ok, crash, pure,
  undefined, if◌then◌else◌, unset_function, Result, raised, continue, ◌>>=◌, ◌>>◌,
}
use cncremote.Comms.Arithmetic.{Double}
use cncremote.Comms.Vectors.{Axes}
use cncremote.Server.{Server}
use cncremote.Server.Logs.{log_message}
use cncremote.EdingCnc.{Linkage, unset, linked, unloaded, Library, Eding}
use cncremote.EdingCnc.Registry.{Windows, load_dll, gui_running}

abbrev pub is_linked : Linkage → Bool
is_linked linked = true
is_linked _ = false

-- `EdingCncServer::EdingCncServer`, which leaves three members as they are in memory.
unfoldable pub new_eding : {W C : Type 0} → ⦃d : Double W⦄ → Bool → ℤ → Axes W → C → Eding W C
new_eding ⦃d⦄ tracking rec_size graph_offset c = record {
  linkage = unset;
  tracking = tracking;
  connected = false;
  connect_count = 0;
  z_max = d.nought;
  rec_size = rec_size;
  graph_offset = graph_offset;
  library = c;
}

module _ {W C : Type 0} where
  -- A member from its first call of the library on.
  abbrev pub linked_only :
      {A : Type 0} → Exec (Server W (Eding W C)) A → Exec (Server W (Eding W C)) A
  linked_only f s = if is_linked s.machine.linkage then f s else crash unset_function s

  -- What is called on the library and changes no other member.
  abbrev pub with_library : C → Server W (Eding W C) → Server W (Eding W C)
  with_library c s = record s { machine = record machine { library = c } }
    where
      open s use {machine}

  module _ (lib : Library W C) where
    abbrev pub joined : Bool × C → Eding W C → Eding W C
    joined (already_runs, c) e = record e {
      library = c;
      connected = if already_runs then lib.is_connected c else false;
    }

    -- From the call of `LoadDll` on.
    abbrev pub connect :
        Bool × Eding W C → Server W (Eding W C) → Result (Unit {0}) × Server W (Eding W C)
    connect (false, e) s = (ok tt, record s { machine = e })
    connect (true, e) s =
        if is_linked e.linkage
        then (ok tt, record s { machine = joined (lib.connect e.library) e })
        else (undefined unset_function, record s { machine = e })

    -- `PollConnected`, which reads the processes and the registry.
    unfoldable pub poll_connected :
        Option (List Bytes) → Windows → Exec (Server W (Eding W C)) (Unit {0})
    poll_connected processes w s =
        if not (gui_running processes)
        then (ok tt, record s { machine = record machine { connect_count = 0 } })
        else if machine.connected
        then (ok tt, s)
        else if ltb machine.connect_count 4
        then (
          ok tt,
          record s { machine = record machine { connect_count = suc machine.connect_count } },
        )
        else connect (load_dll w machine) s
      where
        open s use {machine}

    abbrev pub log_new : Option Bytes → Exec (Server W (Eding W C)) (Unit {0})
    log_new none = pure tt
    log_new (some text) = log_message text

    abbrev pub log_fifo : Exec (Server W (Eding W C)) (Unit {0})
    log_fifo s =
        log_new (lib.log_fifo s.machine.library).0
          (with_library (lib.log_fifo s.machine.library).1 s)

    -- `Poll`
    unfoldable pub poll : Option (List Bytes) → Windows → Exec (Server W (Eding W C)) (Unit {0})
    unfolding poll_connected
    poll processes w = do poll_connected processes w; linked_only log_fifo
