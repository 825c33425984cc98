-- ===== src/Request.antt =====
-- src/mpi_request.c: requests, the list of those whose size has not arrived, and the thread that
-- polls it. `self` is the address of the struct.
mod Memory
pub mod Watch
pub mod Lifecycle
pub mod Start
pub mod Poll
pub mod Many
pub mod Testing
pub mod Testall
pub mod Posting
pub mod Drain
pub mod Round
pub mod Discipline
pub mod Parts
pub mod Methods
pub mod Several
pub mod Bag
pub mod Refines
pub mod Tidy
pub mod TidyPost
pub mod TidyWait
pub mod Polling
pub mod PollSafe
pub mod TidyStart
pub mod Sane
pub mod TidyAny
pub mod WatchList
pub mod Receive
pub mod Restart
pub mod Persistent
pub mod Finalise
mod Tests
mod ListTests
unfoldable pub use Memory.*
