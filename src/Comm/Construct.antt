-- ===== src/Comm/Construct.antt =====
-- mpi_comm.c: the constructors. All wrap the new handle by `comm_new`.
use mpi_ruby.Base.{ℕ, Option, none, some}
use mpi_ruby.Ruby.{Value, Outcome, ok, raised, check_fixnum}
use mpi_ruby.Mpi.{Call, Env}
use mpi_ruby.State.{◌>>=◌, ◌>>◌, M, pure, lift, checked}
use mpi_ruby.Comm.Struct.{CommStruct, RubyComm, fresh_struct, comm_new}
use mpi_ruby.Comm.Args.{fixnum_arg, tag_arg}

-- `rv = MPI_...(..., newcomm->comm); mpi_exception(rv); return comm_new(newcomm);`
unfoldable pub new_comm : Env → Call → M RubyComm
unfolding comm_new
new_comm env c = do r ← checked env c; pure (comm_new (fresh_struct r.handle))

unfoldable pub comm_dup : Env → CommStruct → M RubyComm
unfolding new_comm
comm_dup env mc = new_comm env (Call.comm_dup mc.comm)

-- `Data_Get_Struct(self, struct mpi_comm, mc_comm)`: a class has no struct.
abbrev pub struct_of : Env → Option CommStruct → Outcome CommStruct
struct_of env none = raised env.not_data
struct_of env (some mc) = ok mc

-- `grp` is the handle of the group. As a singleton method of MPI::Comm, `create` is given the class
-- as `self`, which is `none` here.
unfoldable pub comm_create : Env → Option CommStruct → ℕ → M RubyComm
unfolding new_comm
comm_create env self grp = do
  mc ← lift (struct_of env self)
  new_comm env (Call.comm_create mc.comm grp)

unfoldable pub comm_intercomm_create :
    Env → CommStruct → Value → CommStruct → Value → Value → M RubyComm
unfolding new_comm tag_arg
comm_intercomm_create env mc rlocal_leader peer rremote_leader rtag = do
  lift (check_fixnum rlocal_leader)
  lift (check_fixnum rremote_leader)
  local_leader ← lift (env.fix2int rlocal_leader)
  remote_leader ← lift (env.fix2int rremote_leader)
  tag ← tag_arg env rtag
  new_comm env (Call.intercomm_create mc.comm local_leader peer.comm remote_leader tag)

unfoldable pub comm_intercomm_merge : Env → CommStruct → Value → M RubyComm
unfolding new_comm fixnum_arg
comm_intercomm_merge env mc rhigh = do
  high ← fixnum_arg env rhigh
  new_comm env (Call.intercomm_merge mc.comm high)

unfoldable pub comm_split : Env → CommStruct → Value → Value → M RubyComm
unfolding new_comm
comm_split env mc rcolor rkey = do
  lift (check_fixnum rcolor)
  lift (check_fixnum rkey)
  color ← lift (env.fix2int rcolor)
  key ← lift (env.fix2int rkey)
  new_comm env (Call.comm_split mc.comm color key)
