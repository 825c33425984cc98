-- ===== src/Comm/Struct.antt =====
-- mpi_comm.c: `struct mpi_comm`, its wrapping as a Ruby object, and its release.
use mpi_ruby.Base.{ℕ, ℤ, pos, ◌==◌, ◌||◌, true, false}
use mpi_ruby.Mpi.{Call, Env}
use mpi_ruby.State.{◌>>◌, Buf, M, pure, lift, call}
use mpi_ruby.Request.{free_buf}

-- `comm` is the handle `*comm`; `buffer` is what MPI_Buffer_attach was given.
pub record CommStruct : Type 0 where
  pub comm : ℕ
  pub buffer : Buf
  pub bufsize : ℤ

-- MPI::Comm, and its subclass MPI::IntraComm, which alone has the collective operations.
pub data CommClass : Type 0 where
  comm intra_comm : CommClass

pub record RubyComm : Type 0 where
  pub class : CommClass
  pub struct : CommStruct

abbrev pub fresh_struct : ℕ → CommStruct
fresh_struct handle = record { comm = handle; buffer = Buf.null; bufsize = pos 0 }

unfoldable pub comm_new : CommStruct → RubyComm
comm_new mc = record { class = CommClass.comm; struct = mc }

unfoldable pub intra_comm_new : CommStruct → RubyComm
intra_comm_new mc = record { class = CommClass.intra_comm; struct = mc }

-- The finaliser. MPI_COMM_WORLD and MPI_COMM_SELF are not given to MPI_Comm_free.
unfoldable pub comm_free : Env → CommStruct → M (Unit {0})
comm_free env mc = do
  lift (free_buf mc.buffer)
  elim (mc.comm == env.comm_world || mc.comm == env.comm_self) [
    | true ↦ pure tt
    | false ↦ do call env (Call.comm_free mc.comm); pure tt
  ]

-- `SELF` and `WORLD` of `init_predef_comms`, from the handles that main.c sets up.
unfoldable pub init_predef_comms : Env → RubyComm × RubyComm
unfolding intra_comm_new
init_predef_comms env =
    (intra_comm_new (fresh_struct env.comm_self), intra_comm_new (fresh_struct env.comm_world))
