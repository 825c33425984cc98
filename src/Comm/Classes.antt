-- ===== src/Comm/Classes.antt =====
-- mpi_comm.c: the class of a new communicator, and its release.
use mpi_ruby.Base.{◌≡◌, refl, arith}
use mpi_ruby.Ruby.{Value, ok}
use mpi_ruby.Mpi.{Env}
use mpi_ruby.State.{World}
use mpi_ruby.Comm.Struct.{
  CommStruct, CommClass, RubyComm, comm_new, intra_comm_new, init_predef_comms,
}
use mpi_ruby.Comm.Construct.{new_comm, comm_dup, comm_split}

-- A communicator that `dup` or `split` makes is of the class MPI::Comm, while SELF and
-- WORLD are of MPI::IntraComm: a duplicate of WORLD has none of the collective operations, which
-- are methods of MPI::IntraComm.
pub new_comms_lack_collectives :
    (env : Env) (mc : CommStruct) (rcolor rkey : Value) (w w₁ w₃ : World) (dup part : RubyComm)
    → comm_dup env mc w ≡ (ok dup, w₁)
    → comm_split env mc rcolor rkey w ≡ (ok part, w₃)
    → (dup.class ≡ CommClass.comm)
      × (part.class ≡ CommClass.comm)
      × ((init_predef_comms env).0.class ≡ CommClass.intra_comm)
      × ((init_predef_comms env).1.class ≡ CommClass.intra_comm)
unfolding comm_dup comm_split new_comm comm_new init_predef_comms intra_comm_new
new_comms_lack_collectives env mc rcolor rkey w w₁ w₃ dup part d p =
    (ground arith, ground arith, refl, refl)
