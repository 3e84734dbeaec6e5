-- ===== src/Client.antt =====
-- src/cncclient.cpp and include/cncclient.h: the client of a server.
pub mod Calls
pub mod Session
pub mod Polling
pub mod Commands
pub mod Plugins
pub mod Uploads
pub mod Handled
