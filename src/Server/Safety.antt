-- ===== src/Server/Safety.antt =====
-- The handlers of cpmd (cpm/cpm_server.cc) on tables that keep their promises (Server/Tables): invalid
-- accesses, and the tables afterwards.
pub mod Nodes
pub mod Clients
pub mod Answers
pub mod Peers
pub mod Handlers
