-- ===== src/Request/Receive.antt =====
-- mpi_request.c: `wait` on a receive delivers the object.
pub mod Steps
pub use Steps.*
use mpi_ruby.Base.{ℤ, ◌∷◌}
use mpi_ruby.Mpi.{Call, Reply, Env}
use mpi_ruby.State.{Request, World}

-- What MPI answers to the three calls: the wait for the size, the posting of the second receive,
-- and the wait for the bytes.
abbrev pub size_reply : Env → Request → World → Reply
size_reply env mr w = env.reply w.log (Call.wait mr.handle)

abbrev pub post_reply : Env → Request → World → ℤ → Reply
post_reply env mr w n = env.reply (Call.wait mr.handle ∷ w.log) (data_receive mr n)

abbrev pub data_wait : Env → Request → World → ℤ → Call
data_wait env mr w n = Call.wait (post_reply env mr w n).handle

abbrev pub data_reply : Env → Request → World → ℤ → Reply
data_reply env mr w n =
    env.reply (data_receive mr n ∷ Call.wait mr.handle ∷ w.log) (data_wait env mr w n)
