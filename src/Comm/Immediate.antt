-- ===== src/Comm/Immediate.antt =====
-- mpi_comm.c: non-blocking and persistent communication, which makes requests. `raw` is the memory
-- that ALLOC returns for the struct of the request.
use mpi_ruby.Base.{ℕ, ℤ, pos, succ}
use mpi_ruby.Ruby.{Value}
use mpi_ruby.Mpi.{Call, Datatype, Buffer, SendMode, Env}
use mpi_ruby.State.{◌>>=◌, ◌>>◌, Request, ReqType, M, pure, checked}
use mpi_ruby.Request.{NewRequest, request_new}
use mpi_ruby.Request.Start.{request_start}
use mpi_ruby.Comm.Struct.{CommStruct}
use mpi_ruby.Comm.Args.{fixnum_arg, fixnum_arg_late, tag_arg, source_arg}
use mpi_ruby.Comm.PointToPoint.{marshalled}

-- What follows the conversion of `dest` in the four non-blocking sends. The request of the first
-- message is dropped.
unfoldable pub isend_object : Env → SendMode → CommStruct → Request → ℤ → Value → ℤ → Value → M ℕ
unfolding tag_arg marshalled request_new
isend_object env mode mc raw length obj dest rtag = do
  tag ← tag_arg env rtag
  data_ ← marshalled env obj
  checked env (Call.isend mode (Buffer.int_at length) (pos 1) Datatype.mpi_int dest tag mc.comm)
  r ←
      checked env
        (Call.isend mode (Buffer.bytes_at data_) (succ length) Datatype.mpi_byte dest tag mc.comm)
  request_new raw (NewRequest.of_normal r.handle)

unfoldable pub comm_isend : Env → CommStruct → Request → ℤ → Value → Value → Value → M ℕ
unfolding fixnum_arg isend_object
comm_isend env mc raw length obj rdest rtag = do
  dest ← fixnum_arg env rdest
  isend_object env SendMode.standard mc raw length obj dest rtag

unfoldable pub comm_issend : Env → CommStruct → Request → ℤ → Value → Value → Value → M ℕ
unfolding fixnum_arg_late isend_object
comm_issend env mc raw length obj rdest rtag = do
  dest ← fixnum_arg_late env rdest
  isend_object env SendMode.synchronous mc raw length obj dest rtag

unfoldable pub comm_ibsend : Env → CommStruct → Request → ℤ → Value → Value → Value → M ℕ
unfolding fixnum_arg_late isend_object
comm_ibsend env mc raw length obj rdest rtag = do
  dest ← fixnum_arg_late env rdest
  isend_object env SendMode.buffered mc raw length obj dest rtag

unfoldable pub comm_irsend : Env → CommStruct → Request → ℤ → Value → Value → Value → M ℕ
unfolding fixnum_arg_late isend_object
comm_irsend env mc raw length obj rdest rtag = do
  dest ← fixnum_arg_late env rdest
  isend_object env SendMode.ready mc raw length obj dest rtag

unfoldable pub comm_recv_init : Env → CommStruct → Request → Value → Value → M ℕ
unfolding source_arg tag_arg request_new
comm_recv_init env mc raw rsrc rtag = do
  src ← source_arg env rsrc
  tag ← tag_arg env rtag
  request_new raw (NewRequest.of_receive src tag mc.comm)

-- The same lines as `recv_init`, and the request is started.
unfoldable pub comm_irecv : Env → CommStruct → Request → Value → Value → M ℕ
unfolding source_arg tag_arg request_new request_start
comm_irecv env mc raw rsrc rtag = do
  src ← source_arg env rsrc
  tag ← tag_arg env rtag
  req ← request_new raw (NewRequest.of_receive src tag mc.comm)
  request_start env req
  pure req

-- What follows the conversion of `dest` in the four persistent sends.
unfoldable pub send_init_as : Env → ReqType → CommStruct → Request → Value → ℤ → Value → M ℕ
unfolding tag_arg request_new
send_init_as env type mc raw obj dest rtag = do
  tag ← tag_arg env rtag
  request_new raw (NewRequest.of_send type obj dest tag mc.comm)

unfoldable pub comm_send_init : Env → CommStruct → Request → Value → Value → Value → M ℕ
unfolding fixnum_arg_late send_init_as
comm_send_init env mc raw obj rdest rtag = do
  dest ← fixnum_arg_late env rdest
  send_init_as env ReqType.psend mc raw obj dest rtag

unfoldable pub comm_bsend_init : Env → CommStruct → Request → Value → Value → Value → M ℕ
unfolding fixnum_arg_late send_init_as
comm_bsend_init env mc raw obj rdest rtag = do
  dest ← fixnum_arg_late env rdest
  send_init_as env ReqType.pbsend mc raw obj dest rtag

unfoldable pub comm_ssend_init : Env → CommStruct → Request → Value → Value → Value → M ℕ
unfolding fixnum_arg send_init_as
comm_ssend_init env mc raw obj rdest rtag = do
  dest ← fixnum_arg env rdest
  send_init_as env ReqType.pssend mc raw obj dest rtag

unfoldable pub comm_rsend_init : Env → CommStruct → Request → Value → Value → Value → M ℕ
unfolding fixnum_arg_late send_init_as
comm_rsend_init env mc raw obj rdest rtag = do
  dest ← fixnum_arg_late env rdest
  send_init_as env ReqType.prsend mc raw obj dest rtag
