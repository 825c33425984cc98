-- ===== src/Session/Makes.antt =====
-- mpi_comm.c: the methods that make requests keep the requests in order.
use mpi_ruby.Base.{ℕ, ℤ, pos, succ, Bool, true, false, if◌then◌else◌}
use mpi_ruby.Ruby.{Value, Bytes, is_any_tag, is_any_source, check_fixnum}
use mpi_ruby.Mpi.{Call, Reply, Datatype, Buffer, SendMode, Env}
use mpi_ruby.State.{Request, ReqType, M, pure, ◌>>=◌, ◌>>◌, lift, checked}
use mpi_ruby.State.Keeps.{Keeps, Keeps-then, Keeps-checked, Moves, Moves-then, Moves-last}
use mpi_ruby.Request.{NewRequest, request_new}
use mpi_ruby.Request.Start.{request_start}
use mpi_ruby.Request.Tidy.{HasMemory}
use mpi_ruby.Request.Sane.{Sane, Sane-request_new, Sane-request_start, Sane-weaken}
use mpi_ruby.Comm.{CommStruct}
use mpi_ruby.Comm.Args.{fixnum_arg, fixnum_arg_late, tag_arg, source_arg}
use mpi_ruby.Comm.PointToPoint.{marshalled}
use mpi_ruby.Comm.Harmless.{Harmless, Harmless-marshalled}
use mpi_ruby.Comm.Immediate.{
  isend_object, comm_isend, comm_issend, comm_ibsend, comm_irsend, comm_recv_init, comm_irecv,
  send_init_as, comm_send_init, comm_bsend_init, comm_ssend_init, comm_rsend_init,
}

Harmless-fixnum_arg : (env : Env) (v : Value) → Harmless (fixnum_arg env v)
unfolding fixnum_arg
Harmless-fixnum_arg env v P =
    Keeps-then P (lift (check_fixnum v)) (λ _. lift (env.fix2int v)) (λ w p. p) (λ _ w p. p)

Harmless-fixnum_arg_late : (env : Env) (v : Value) → Harmless (fixnum_arg_late env v)
unfolding fixnum_arg_late
Harmless-fixnum_arg_late env v P =
    Keeps-then P (lift (env.fix2int v)) (λ n. lift (check_fixnum v) >> pure n) (λ w p. p)
      λ n. Keeps-then P (lift (check_fixnum v)) (λ _. pure n) (λ w p. p) (λ _ w p. p)

Harmless-either :
    {A : Type 0} (c : Bool) (x : A) (m : M A) → Harmless m → Harmless (if c then pure x else m)
Harmless-either true x m h P = λ w p. p
Harmless-either false x m h P = h P

Harmless-tag_arg : (env : Env) (v : Value) → Harmless (tag_arg env v)
unfolding tag_arg
Harmless-tag_arg env v =
    Harmless-either (is_any_tag v) env.mpi_any_tag (fixnum_arg env v) (Harmless-fixnum_arg env v)

Harmless-source_arg : (env : Env) (v : Value) → Harmless (source_arg env v)
unfolding source_arg
Harmless-source_arg env v =
    Harmless-either (is_any_source v) env.mpi_any_source (fixnum_arg env v)
      (Harmless-fixnum_arg env v)

-- A conversion of an argument, and what follows it.
after :
    {A B : Type 0} (room : ℕ) (m : M A) (f : A → M B)
    → Harmless m
    → ((x : A) → Keeps (Sane room) (f x))
    → Keeps (Sane room) (m >>= f)
after room m f harmless hf = Keeps-then (Sane room) m f (harmless (Sane room)) hf

module _ (env : Env) (mc : CommStruct) (raw : Request) where
  Sane-isend_object :
      (mode : SendMode) (length : ℤ) (obj : Value) (dest : ℤ) (rtag : Value)
      → Keeps (Sane 0) (isend_object env mode mc raw length obj dest rtag)
  unfolding isend_object
  Sane-isend_object mode length obj dest rtag =
      let c₁ : ℤ → Call =
        λ tag. Call.isend mode (Buffer.int_at length) (pos 1) Datatype.mpi_int dest tag mc.comm in
      let c₂ : ℤ → Bytes → Call = λ tag data_.
        Call.isend mode (Buffer.bytes_at data_) (succ length) Datatype.mpi_byte dest tag mc.comm in
      let new : Reply → M ℕ = λ r. request_new raw (NewRequest.of_normal r.handle) in
      after 0 (tag_arg env rtag)
        (λ tag. marshalled env obj >>= λ data_.
          checked env (c₁ tag) >> (checked env (c₂ tag data_) >>= new))
        (Harmless-tag_arg env rtag)
        λ tag.
          after 0 (marshalled env obj)
            (λ data_. checked env (c₁ tag) >> (checked env (c₂ tag data_) >>= new))
            (Harmless-marshalled env obj)
            λ data_.
              Keeps-then (Sane 0) (checked env (c₁ tag)) (λ _. checked env (c₂ tag data_) >>= new)
                (Keeps-checked (Sane 0) env (c₁ tag) (λ c w p. p))
                λ _.
                  Keeps-then (Sane 0) (checked env (c₂ tag data_)) new
                    (Keeps-checked (Sane 0) env (c₂ tag data_) (λ c w p. p))
                    λ r. Sane-request_new 0 raw (NewRequest.of_normal r.handle)

  pub Sane-comm_isend :
      (length : ℤ) (obj rdest rtag : Value)
      → Keeps (Sane 0) (comm_isend env mc raw length obj rdest rtag)
  unfolding comm_isend
  Sane-comm_isend length obj rdest rtag =
      after 0 (fixnum_arg env rdest)
        (λ dest. isend_object env SendMode.standard mc raw length obj dest rtag)
        (Harmless-fixnum_arg env rdest)
        λ dest. Sane-isend_object SendMode.standard length obj dest rtag

  pub Sane-comm_issend :
      (length : ℤ) (obj rdest rtag : Value)
      → Keeps (Sane 0) (comm_issend env mc raw length obj rdest rtag)
  unfolding comm_issend
  Sane-comm_issend length obj rdest rtag =
      after 0 (fixnum_arg_late env rdest)
        (λ dest. isend_object env SendMode.synchronous mc raw length obj dest rtag)
        (Harmless-fixnum_arg_late env rdest)
        λ dest. Sane-isend_object SendMode.synchronous length obj dest rtag

  pub Sane-comm_ibsend :
      (length : ℤ) (obj rdest rtag : Value)
      → Keeps (Sane 0) (comm_ibsend env mc raw length obj rdest rtag)
  unfolding comm_ibsend
  Sane-comm_ibsend length obj rdest rtag =
      after 0 (fixnum_arg_late env rdest)
        (λ dest. isend_object env SendMode.buffered mc raw length obj dest rtag)
        (Harmless-fixnum_arg_late env rdest)
        λ dest. Sane-isend_object SendMode.buffered length obj dest rtag

  pub Sane-comm_irsend :
      (length : ℤ) (obj rdest rtag : Value)
      → Keeps (Sane 0) (comm_irsend env mc raw length obj rdest rtag)
  unfolding comm_irsend
  Sane-comm_irsend length obj rdest rtag =
      after 0 (fixnum_arg_late env rdest)
        (λ dest. isend_object env SendMode.ready mc raw length obj dest rtag)
        (Harmless-fixnum_arg_late env rdest)
        λ dest. Sane-isend_object SendMode.ready length obj dest rtag

  Sane-send_init_as :
      (type : ReqType) (obj : Value) (dest : ℤ) (rtag : Value)
      → Keeps (Sane 0) (send_init_as env type mc raw obj dest rtag)
  unfolding send_init_as
  Sane-send_init_as type obj dest rtag =
      after 0 (tag_arg env rtag)
        (λ tag. request_new raw (NewRequest.of_send type obj dest tag mc.comm))
        (Harmless-tag_arg env rtag)
        λ tag. Sane-request_new 0 raw (NewRequest.of_send type obj dest tag mc.comm)

  pub Sane-comm_send_init :
      (obj rdest rtag : Value) → Keeps (Sane 0) (comm_send_init env mc raw obj rdest rtag)
  unfolding comm_send_init
  Sane-comm_send_init obj rdest rtag =
      after 0 (fixnum_arg_late env rdest)
        (λ dest. send_init_as env ReqType.psend mc raw obj dest rtag)
        (Harmless-fixnum_arg_late env rdest) λ dest. Sane-send_init_as ReqType.psend obj dest rtag

  pub Sane-comm_bsend_init :
      (obj rdest rtag : Value) → Keeps (Sane 0) (comm_bsend_init env mc raw obj rdest rtag)
  unfolding comm_bsend_init
  Sane-comm_bsend_init obj rdest rtag =
      after 0 (fixnum_arg_late env rdest)
        (λ dest. send_init_as env ReqType.pbsend mc raw obj dest rtag)
        (Harmless-fixnum_arg_late env rdest) λ dest. Sane-send_init_as ReqType.pbsend obj dest rtag

  pub Sane-comm_ssend_init :
      (obj rdest rtag : Value) → Keeps (Sane 0) (comm_ssend_init env mc raw obj rdest rtag)
  unfolding comm_ssend_init
  Sane-comm_ssend_init obj rdest rtag =
      after 0 (fixnum_arg env rdest) (λ dest. send_init_as env ReqType.pssend mc raw obj dest rtag)
        (Harmless-fixnum_arg env rdest) λ dest. Sane-send_init_as ReqType.pssend obj dest rtag

  pub Sane-comm_rsend_init :
      (obj rdest rtag : Value) → Keeps (Sane 0) (comm_rsend_init env mc raw obj rdest rtag)
  unfolding comm_rsend_init
  Sane-comm_rsend_init obj rdest rtag =
      after 0 (fixnum_arg_late env rdest)
        (λ dest. send_init_as env ReqType.prsend mc raw obj dest rtag)
        (Harmless-fixnum_arg_late env rdest) λ dest. Sane-send_init_as ReqType.prsend obj dest rtag

  pub Sane-comm_recv_init :
      (rsrc rtag : Value) → Keeps (Sane 0) (comm_recv_init env mc raw rsrc rtag)
  unfolding comm_recv_init
  Sane-comm_recv_init rsrc rtag =
      let new : ℤ → ℤ → M ℕ = λ src tag. request_new raw (NewRequest.of_receive src tag mc.comm) in
      after 0 (source_arg env rsrc) (λ src. tag_arg env rtag >>= new src)
        (Harmless-source_arg env rsrc)
        λ src.
          after 0 (tag_arg env rtag) (new src) (Harmless-tag_arg env rtag)
            λ tag. Sane-request_new 0 raw (NewRequest.of_receive src tag mc.comm)

  -- The receive that is started takes a cell.
  pub Sane-comm_irecv :
      HasMemory env
      → (rsrc rtag : Value) → Moves (Sane 1) (Sane 0) (comm_irecv env mc raw rsrc rtag)
  unfolding comm_irecv
  Sane-comm_irecv memory rsrc rtag =
      let start : ℕ → M ℕ = λ req. request_start env req >> pure req in
      let new : ℤ → ℤ → M ℕ = λ src tag. request_new raw (NewRequest.of_receive src tag mc.comm) in
      Moves-last (Sane 1) (Sane 0) (source_arg env rsrc)
        (λ src. tag_arg env rtag >>= λ tag. new src tag >>= start) Sane-weaken
        (Harmless-source_arg env rsrc (Sane 1))
        λ src.
          Moves-last (Sane 1) (Sane 0) (tag_arg env rtag) (λ tag. new src tag >>= start) Sane-weaken
            (Harmless-tag_arg env rtag (Sane 1))
            λ tag.
              Moves-last (Sane 1) (Sane 0) (new src tag) start Sane-weaken
                (Sane-request_new 1 raw (NewRequest.of_receive src tag mc.comm))
                λ req.
                  Moves-then (Sane 1) (Sane 0) (request_start env req) (λ _. pure req)
                    (Sane-request_start env memory req) (λ _ w p. p)
