-- ===== src/Resolve.antt =====
-- cpm/cpm_resolve_server_conf.cc and cpm/cpm_resolve_server.cc: the server that knows the nodes.
pub mod Load
pub mod Conf
pub mod Service
