-- ===== src/Comm/Topology.antt =====
-- mpi_comm.c: Cartesian and graph topologies.
mod Create
mod Query
mod Mapping
unfoldable pub use Create.*
unfoldable pub use Query.*
unfoldable pub use Mapping.*
