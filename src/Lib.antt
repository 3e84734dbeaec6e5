-- ===== src/Lib.antt =====
-- CNCRemote lets an application on one machine control a CNC machine that is driven by another. A server
-- (src/cncserver.cpp, include/cncserver.h) runs beside the machine; a driver derives from it and overrides
-- the members that act on the hardware. A client (src/cncclient.cpp, include/cncclient.h) calls these
-- members over the linear-rpc library: requests are answered, notifications are not. The messages are
-- MessagePack values of the types of include/cnccomms.h.
--
-- The files:
--   * Prelude: numbers, lists, integers, bytes, and methods that change an object and may throw: `Exec S
--     A` is one on an object of the type `S`; its result is a value, an exception, or behaviour that C++
--     leaves undefined, after which nothing runs.
--   * Comms: the types of include/cnccomms.h. Comms/Arithmetic is what the program does with `double`, an
--     instance argument without laws; Comms/Vectors is `Axes`; Comms/Wire is what linear-rpc gives, with
--     the law that an unpacked value is the packed one; Comms/Messages and Comms/States are the layout of
--     the messages.
--   * Server: the members of `Server` as a record, and `Driver`, the overridden members. Server/Stdio is
--     the part of stdio that is used: an open stream is told from a closed one. Server/Files is
--     `SendInit`, `SendData` and `DeleteTemp`, with Files/Starts on how a transfer starts, Files/Blocks
--     on its blocks and Files/Rivals on two transfers at once, and Files/Transfers the abstract transfer
--     that the calls of clients go through, with what is proved of it in its children. Server/Logs is the
--     log. Server/Handlers is `OnMessage` with the handler templates, Server/Bindings the tables that
--     `Server::Server` fills, Server/Protocol the calls that they name as data, Server/Dispatch that each
--     call reaches its member, and Dispatch/Requests and Dispatch/Notifications what any message at all
--     does.
--   * Client: Client/Calls is `RemoteCall`; Client/Session the members of `Client` and of
--     `Client::Handler`; Client/Polling `Poll`; Client/Commands the commands; Client/Uploads `LoadFile`;
--     Client/Handled the members that can throw, in the build with HANDLE_CNCREMOTE_EXCEPTIONS. Their
--     children hold what is proved of each: Calls/Laws, Calls/Defined, Session/Reconnects, Polling/Busy,
--     Polling/Refusals, Polling/Life with Polling/Views on what the application hears, Uploads/Ends,
--     Uploads/Defined and Handled/Laws. Client/Plugins is `LoadPlugins`, `Connect`, `Disconnect` and the
--     destructor, in the build with USE_PLUGINS; Plugins/Laws is the protocol of include/cncplugin.h,
--     Plugins/Sessions on all that an application does with plugins, Plugins/Loading on which are kept,
--     Plugins/Allowed on what a call that keeps to the protocol says.
--   * Network: a client joined to a server by a network that delivers. Network/Calls and Network/Polls
--     are lemmas on single calls; Network/States is on polling, Network/Commands on the commands,
--     Network/Uploads and Network/Loads on a whole upload, Network/Reading on reading a server's errors,
--     Network/Exceptions on exceptions that come back, Network/Drivers on what the four drivers leave
--     alone, Network/Openings on an upload to LinuxCNC.
--   * Sim: the simulated machine of drivers/Sim/server. Sim/Members is the driver, Sim/Motion is `Poll`,
--     Sim/Safety what is proved of them.
--   * LinuxCnc: the server for LinuxCNC (drivers/linuxcnc/server/linuxcnc.cpp). LinuxCnc/Channel is
--     sending a command and waiting for its echo, LinuxCnc/Members the driver's members, LinuxCnc/Laws
--     what is proved of them; LinuxCnc/Reports is `UpdateState` and `Poll`, with Reports/Laws;
--     LinuxCnc/Connecting is `ConnectNml` and `ConnectLCnc`, LinuxCnc/Settings `IniLoad`.
--   * Plugin: the plugin that starts and stops this server (drivers/linuxcnc/plugin/main.cpp).
--   * EdingCnc: the server for EdingCNC (drivers/EdingCNC402/EdingCNC.cpp and EdingCNC.h).
--     EdingCnc/Registry is `LoadDll` and `GuiRunning`, EdingCnc/Connection `PollConnected` and `Poll`,
--     EdingCnc/Reports `UpdateState`, EdingCnc/Pauses `CheckPause`, `WaitMove` and `CycleStart`,
--     EdingCnc/Previews the preview, EdingCnc/Members the other members, and EdingCnc/Overrides the
--     driver that they make. What is proved of each is in its child Laws.
--   * Mach3: the server for Mach3 (drivers/Mach3/MachServer.cpp and MachServer.h). Mach3/Polling is
--     `Poll`, `JogVel` and `UpdateState`, Mach3/Settings the constructor, `LoadSettings` and `StartLoop`,
--     Mach3/Members the other members with the driver; the children Laws are on the first and the last.
--   * Entries: what creates a server and polls it, with `Server::Bind`. Entries/Eding is the library that
--     a client loads for EdingCNC (drivers/EdingCNC402/main.cpp), with Eding/Laws on a client that calls
--     it and Eding/Polls on how a poll ends; Entries/LinuxCnc is the loop of
--     drivers/linuxcnc/server/main.cpp, Entries/Sim the simulator's program and plugin, Entries/Mach what
--     Mach3 calls (drivers/Mach3/Plugin.cpp).
--   * Timers: src/timer.cpp and include/timer.h.
--   * Sample and Examples: concrete values for the parameters, and the properties at concrete inputs.
--
-- What is a parameter: linear-rpc (`Wire`, `Peer`, `Listener`), the names that `mkstemp` makes and
-- whether `fdopen` succeeds (`Host`), `double` (`Double`), the driver (`Driver`), LinuxCNC behind its
-- channels (`Controller`) and how they are opened (`Nml`), its ini file (`IniFile`), EdingCNC behind
-- its library (`Library`) and what Windows says of it (`Windows`), Mach3's functions (`Mach`), child
-- processes with the clock (`Shell`), the libraries of plugins (`Outside`), what is around a program or
-- library that is called (`Around`, `Beside`, `Start`), the client's files (an argument of
-- `load_file`), the clock of a timer (an argument).
--
-- Bounds and fuel: the loop of `LoadFile` runs on fuel of one round for each full block of the file and
-- one more. `Wait` is recursion on its milliseconds, the wait for an echo on its 1000 rounds. Loops
-- that end only when the world outside lets them are followed for a number of rounds: the attempts of
-- `ConnectLCnc`, the passes and polls of the programs, the looks of `WaitMove` and the loops of the
-- plugin; when these are used up the result is `none` or `endless`, and the theorems say which number
-- is enough. The counts of errors and messages wrap as `unsigned int`, the length of a name as
-- `size_t`; block numbers and the heartbeat, `int`s that C++ does not let overflow, are integers.
--
-- Not modelled: the branches for Windows of the sources shared by both systems, threads within a
-- handler (each holds the state's lock), a member that throws `std::bad_cast` itself, output to the
-- console, the command line of the program for LinuxCNC, destructors that only free memory, the kit of
-- Mach3 for plugins (MachDevice.cpp), and the sources of other projects that are kept in the
-- repository.
pub mod Prelude
pub mod Comms
pub mod Sample
pub mod Server
pub mod Client
pub mod Network
pub mod Sim
pub mod LinuxCnc
pub mod EdingCnc
pub mod Mach3
pub mod Entries
pub mod Timers
pub mod Plugin
pub mod Examples
