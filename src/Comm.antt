-- ===== src/Comm.antt =====
-- src/mpi_comm.c: communicators. `mc` is the struct behind `self`.
mod Struct
pub mod Args
pub mod Construct
pub mod Topology
pub mod Environment
pub mod PointToPoint
pub mod Immediate
pub mod Buffering
pub mod Decode
pub mod RoundTrip
pub mod Cartesian
pub mod Graph
pub mod Classes
pub mod Compare
pub mod Attached
pub mod Collective
pub mod Broadcast
pub mod Ring
pub mod Allgather
pub mod Exchange
pub mod Reduction
pub mod Reduce
pub mod Scatter
pub mod Packing
pub mod Unpacking
pub mod Alltoall
pub mod Harmless
pub mod Rounds
pub mod ReduceWith
pub mod ReduceGives
pub mod ReduceEnds
pub mod Overrun
pub mod Combine
mod Tests
mod RingTests
mod ExchangeTests
mod CombineTests
mod ReduceTests
mod ScatterTests
unfoldable pub use Struct.*
