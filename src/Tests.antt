-- ===== src/Tests.antt =====
-- Concrete objects, a concrete network, runs of the code, and the theorems at concrete inputs.
pub mod Net
pub mod Addresses
pub mod Messages
pub mod Queues
pub mod Nodes
pub mod Servers
pub mod Stranded
pub mod Buses
pub mod Hosts
pub mod Resolve
pub mod Protocols
pub mod Joins
pub mod Chats
pub mod Deliveries
pub mod Programs
pub mod Starts
