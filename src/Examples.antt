-- ===== src/Examples.antt =====
-- The properties at concrete inputs: the simulator of drivers/Sim as the driver, whole numbers for
-- `double` and trees for MessagePack values.
pub mod Data
mod Transfers
mod Messages
mod Calls
mod Lives
mod Networks
mod Machines
mod Controllers
mod EdingServers
mod MachServers
mod Plugins
mod PluginSessions
mod Readings
mod Programs
mod Rivals
mod Openings
mod Uploads
mod Times
pub mod Handled
