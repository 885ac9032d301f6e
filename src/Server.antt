-- ===== src/Server.antt =====
-- The connection to the server, 20100117_RouterAssign_1/router/sr_vns_comm.c, and the main program,
-- 20100117_RouterAssign_1/router/sr_main.c.
pub mod Socket
pub mod Session
pub mod Reader
pub mod Connect
pub mod Command
pub mod Main
mod Examples
