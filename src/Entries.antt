-- ===== src/Entries.antt =====
-- The programs and libraries that create a server (the files main.cpp of drivers/, and drivers/Mach3/Plugin.cpp),
-- and `Server::Bind` of src/cncserver.cpp, which all of them call.
pub mod Eding
pub mod Mach
pub mod LinuxCnc
pub mod Sim
use cncremote.Prelude.{ℕ, Bool, Exec, ok}
use cncremote.Client.Polling.{ComError, err_ok}

-- `linear::TCPServer` in a state `X`: what a new one is, `Stop`, and `Start` on all addresses with a port, which
-- tells whether the port could be had.
pub record Listener (X : Type 0) : Type 0 where
  pub idle : X
  pub stop : X → X
  pub start : ℕ → X → Bool × X

-- DEFAULT_COMMS_PORT
abbrev pub default_port : ℕ
default_port = 5090

-- `Server::Bind`, which does not look at what `Start` returns.
unfoldable pub bind : {X : Type 0} → Listener X → ℕ → X → ComError × X
bind l port x = (err_ok, (l.start port (l.stop x)).1)
