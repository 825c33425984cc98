-- ===== src/Comm/PointToPoint.antt =====
-- mpi_comm.c: blocking sends and receives. An object travels as two messages, its size and its
-- marshalled bytes. `length`, `dlen` are what the local variables hold that no statement sets.
use mpi_ruby.Base.{ℤ, pos, pos_part, succ, [], ◌∷◌, ◌++◌, cells, if◌then◌else◌, eq_int}
use mpi_ruby.Ruby.{Value, Bytes}
use mpi_ruby.Mpi.{Call, Datatype, Buffer, SendMode, Env, Status}
use mpi_ruby.State.{◌>>=◌, ◌>>◌, M, pure, lift, checked}
use mpi_ruby.Comm.Struct.{CommStruct}
use mpi_ruby.Comm.Args.{fixnum_arg, tag_arg, source_arg}

-- `dump = Marshal.dump(obj); data = StringValueCStr(dump);`: the bytes, with the NUL behind them.
unfoldable pub marshalled : Env → Value → M Bytes
marshalled env obj = do
  dump ← lift (env.marshal_dump obj)
  str ← lift (env.string_value_cstr dump)
  pure (str ++ (0 ∷ []))

-- The body that the four sends share; they differ in the MPI functions of the two messages.
unfoldable pub send_object :
    Env → SendMode → SendMode → CommStruct → ℤ → Value → Value → Value → M Value
unfolding fixnum_arg tag_arg marshalled
send_object env first second mc length obj rdest rtag = do
  dest ← fixnum_arg env rdest
  tag ← tag_arg env rtag
  data_ ← marshalled env obj
  checked env (Call.send first (Buffer.int_at length) (pos 1) Datatype.mpi_int dest tag mc.comm)
  checked env
      (Call.send second (Buffer.bytes_at data_) (succ length) Datatype.mpi_byte dest tag mc.comm)
  pure Value.qtrue

unfoldable pub comm_send : Env → CommStruct → ℤ → Value → Value → Value → M Value
unfolding send_object
comm_send env = send_object env SendMode.standard SendMode.standard

unfoldable pub comm_bsend : Env → CommStruct → ℤ → Value → Value → Value → M Value
unfolding send_object
comm_bsend env = send_object env SendMode.buffered SendMode.buffered

unfoldable pub comm_ssend : Env → CommStruct → ℤ → Value → Value → Value → M Value
unfolding send_object
comm_ssend env = send_object env SendMode.synchronous SendMode.synchronous

-- Only the first message is a ready send.
unfoldable pub comm_rsend : Env → CommStruct → ℤ → Value → Value → Value → M Value
unfolding send_object
comm_rsend env = send_object env SendMode.ready SendMode.standard

-- `rb_str_new(data, length + 1)` on a buffer of that size.
abbrev pub received : Env → ℤ → Bytes → Bytes
received env length bs = cells (pos_part (succ length)) env.junk_char bs

unfoldable pub comm_recv : Env → CommStruct → Value → Value → M (Value × Status)
unfolding source_arg tag_arg
comm_recv env mc rsrc rtag = do
  src ← source_arg env rsrc
  tag ← tag_arg env rtag
  size ← checked env (Call.recv (pos 1) Datatype.mpi_int src tag mc.comm)
  let src' = if eq_int src env.mpi_any_source then size.status.source else src
  lift (env.alloc_n (succ size.out0))
  r ← checked env (Call.recv (succ size.out0) Datatype.mpi_byte src' tag mc.comm)
  obj ← lift (env.marshal_load (received env size.out0 r.bytes))
  pure (obj, r.status)

unfoldable pub comm_sendrecv :
    Env → CommStruct → ℤ → Value → Value → Value → Value → Value → M (Value × Status)
unfolding fixnum_arg source_arg tag_arg marshalled
comm_sendrecv env mc dlen obj rdest rdtag rsrc rstag = do
  dest ← fixnum_arg env rdest
  dtag ← tag_arg env rdtag
  src ← source_arg env rsrc
  stag ← tag_arg env rstag
  ddata ← marshalled env obj
  size ← checked env (
      Call.sendrecv (Buffer.int_at dlen) (pos 1) Datatype.mpi_int dest dtag (pos 1) Datatype.mpi_int
        src stag mc.comm)
  lift (env.alloc_n (succ size.out0))
  r ← checked env (
      Call.sendrecv (Buffer.bytes_at ddata) (succ dlen) Datatype.mpi_byte dest dtag (succ size.out0)
        Datatype.mpi_byte src stag mc.comm)
  v ← lift (env.marshal_load (received env size.out0 r.bytes))
  pure (v, r.status)
