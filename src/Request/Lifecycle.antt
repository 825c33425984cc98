-- ===== src/Request/Lifecycle.antt =====
-- mpi_request.c: `wait`, `test` and `cancel` of one request. A receive comes in two stages: the
-- size of the object, then its bytes.
use mpi_ruby.Base.{ℕ, pos_part, succ, Bool, true, false, Option, none, some, [], cells, ◌&&◌}
use mpi_ruby.Ruby.{Value, rb_bool, is_nonzero, ok}
use mpi_ruby.Mpi.{Call, Datatype, Env, Reply, Status}
use mpi_ruby.Exception.{mpi_exception}
use mpi_ruby.State.{
  ◌>>=◌, ◌>>◌, Request, ReqType, Stage, Buf, M, pure, lift, call, checked, load, store,
}
use mpi_ruby.Request.Memory.{free_buf, freed, str_new2}
use mpi_ruby.Request.Watch.{request_unwatch}

-- `(mr->type == RECV) && (mr->stage == TX_SIZE)`
abbrev pub is_receive : ReqType → Bool
is_receive ReqType.receive = true
is_receive _ = false

abbrev pub is_size_stage : Stage → Bool
is_size_stage Stage.tx_size = true
is_size_stage Stage.tx_data = false

abbrev pub awaits_size : Request → Bool
awaits_size mr = is_receive mr.type && is_size_stage mr.stage

-- What the completion of a pending receive writes to `*req`, and to `buflen` or into `buf`.
abbrev pub with_size : Reply → Request → Request
with_size r mr = elim r.arrived [
  | none ↦ record mr { handle = r.handle }
  | some n ↦ record mr { handle = r.handle; buflen = n }
]

abbrev pub with_bytes : Env → Reply → Request → Request
with_bytes env r mr = record mr { handle = r.handle; buf = filled }
  where
    filled : Buf
    filled = elim mr.buf [
      | Buf.owned bs ↦ Buf.owned (cells (pos_part (succ mr.buflen)) env.junk_char r.bytes)
      | b ↦ b
    ]

-- `free(mr->buf); mr->buf = ALLOC_N(char, mr->buflen + 1); MPI_Irecv(...)`: posts the receive of
-- the bytes. `checks` tells whether the code of MPI_Irecv is looked at.
unfoldable pub post_data : Env → Bool → ℕ → Request → M Request
post_data env checks self mr = do
  lift (free_buf mr.buf)
  let mr₁ = record mr { buf = freed mr.buf }
  store self mr₁
  lift (env.alloc_n (succ mr.buflen))
  let mr₂ = record mr { buf = Buf.owned (cells (pos_part (succ mr.buflen)) env.junk_char []) }
  store self mr₂
  r ← call env (Call.irecv (succ mr.buflen) Datatype.mpi_byte mr.peer mr.tag mr.comm)
  let mr₃ = record mr₂ { handle = r.handle }
  store self mr₃
  lift (elim checks [ true ↦ mpi_exception r.rv | false ↦ ok tt ])
  pure mr₃

-- The first `if` of `request_wait`.
unfoldable pub wait_size : Env → ℕ → Request → M (Unit {0})
wait_size env self mr = do
  r ← call env (Call.wait mr.handle)
  let mr₁ = with_size r mr
  store self mr₁
  lift (mpi_exception r.rv)
  mr₂ ← post_data env true self mr₁
  request_unwatch self
  store self (record mr₂ { stage = Stage.tx_data })

-- The rest of `request_wait` for a receive: the object is loaded from the buffer as a C string.
unfoldable pub take_object : Env → ℕ → Request → M (Unit {0})
take_object env self mr = do
  str ← lift (str_new2 env mr.buf)
  obj ← lift (env.marshal_load str)
  let mr₁ = record mr { obj = obj }
  store self mr₁
  lift (free_buf mr.buf)
  store self (record mr₁ { buf = Buf.null })

-- The rest of `request_wait`.
unfoldable pub wait_data : Env → ℕ → M Status
wait_data env self = do
  mr ← load self
  r ← call env (Call.wait mr.handle)
  let mr₁ = record (with_bytes env r mr) { peer = r.status.source }
  store self mr₁
  lift (mpi_exception r.rv)
  elim (is_receive mr.type) [ true ↦ take_object env self mr₁ | false ↦ pure tt ]
  pure r.status

unfoldable pub request_wait : Env → ℕ → M Status
request_wait env self = do
  mr ← load self
  elim (awaits_size mr) [ true ↦ wait_size env self mr | false ↦ pure tt ]
  wait_data env self

-- `[false, nil]` while the size is awaited: MPI is not asked, and the polling thread has to move
-- the request on. Otherwise the flag of MPI_Test with the status.
unfoldable pub request_test : Env → ℕ → M (Value × Option Status)
request_test env self = do
  mr ← load self
  elim (awaits_size mr) [
    | true ↦ pure (Value.qfalse, none)
    | false ↦ do
      r ← call env (Call.test mr.handle)
      store self (record mr { handle = r.handle })
      lift (mpi_exception r.rv)
      pure (rb_bool (is_nonzero r.out0), some r.status)
  ]

-- A receive goes back to its first stage and leaves the list, then falls through to MPI_Cancel.
unfoldable pub request_cancel : Env → ℕ → M Value
request_cancel env self = do
  mr ← load self
  elim (is_receive mr.type) [
    | true ↦ do
      lift (free_buf mr.buf)
      store self (record mr { stage = Stage.tx_size; buf = Buf.null })
      request_unwatch self
    | false ↦ pure tt
  ]
  checked env (Call.cancel mr.handle)
  pure Value.qtrue
