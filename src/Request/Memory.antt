-- ===== src/Request/Memory.antt =====
-- mpi_request.c: `request_new`, `request_free`, and what C does with `buf`.
use mpi_ruby.Base.{◌==◌, ℕ, zero, suc, ℤ, pos, [], ◌∷◌, ◌++◌, Option, none, some, length, set}
use mpi_ruby.Ruby.{int_of_bool, Value, Bytes, Outcome, ok, fault, raised, Fault}
use mpi_ruby.Mpi.{Call, Env}
use mpi_ruby.State.{◌>>=◌, ◌>>◌, Request, ReqType, Stage, Buf, M, pure, lift, checked, load}

-- `free(buf)`: NULL and memory from ALLOC_N may be freed, and nothing else.
abbrev pub free_buf : Buf → Outcome (Unit {0})
free_buf Buf.null = ok tt
free_buf (Buf.owned _) = ok tt
free_buf (Buf.borrowed _) = fault Fault.bad_free
free_buf Buf.wild = fault Fault.bad_free

-- The pointer after `free`: it still holds its old value.
abbrev pub freed : Buf → Buf
freed Buf.null = Buf.null
freed _ = Buf.wild

-- The characters before the first NUL; none where no NUL ends them.
unfoldable pub until_nul : Bytes → Option Bytes
until_nul [] = none
until_nul (zero ∷ _) = some []
until_nul (suc c ∷ rest) = elim (until_nul rest) [ none ↦ none | some s ↦ some (suc c ∷ s) ]

-- `rb_str_new2(buf)`
abbrev pub str_new2 : Env → Buf → Outcome Bytes
str_new2 env Buf.null = raised env.null_string
str_new2 env Buf.wild = fault Fault.indeterminate
str_new2 env (Buf.owned bs) = elim (until_nul bs) [
  | none ↦ fault Fault.unterminated
  | some s ↦ ok s
]
str_new2 env (Buf.borrowed bs) = elim (until_nul bs) [
  | none ↦ fault Fault.unterminated
  | some s ↦ ok s
]

-- The arguments of `request_new(type, ...)`.
pub data NewRequest : Type 0 where
  of_normal : ℕ → NewRequest
  of_send : ReqType → Value → ℤ → ℤ → ℕ → NewRequest
  of_receive : ℤ → ℤ → ℕ → NewRequest

-- The struct that `request_new` fills in; `raw` is the memory as ALLOC returns it.
unfoldable pub new_struct : Request → NewRequest → Request
new_struct raw (NewRequest.of_normal req) = record raw {
  handle = req;
  type = ReqType.normal;
  obj = Value.qnil;
}
new_struct raw (NewRequest.of_send type obj peer tag comm) = record raw {
  comm = comm;
  type = type;
  obj = obj;
  peer = peer;
  tag = tag;
  stage = Stage.tx_size;
  buflen = pos 0;
  buf = Buf.null;
}
new_struct raw (NewRequest.of_receive peer tag comm) = record raw {
  comm = comm;
  type = ReqType.receive;
  obj = Value.qnil;
  peer = peer;
  tag = tag;
  stage = Stage.tx_size;
  buflen = pos 0;
  buf = Buf.null;
}

unfoldable pub request_new : Request → NewRequest → M ℕ
request_new raw args w =
    (ok (length w.heap), record w { heap = w.heap ++ (some (new_struct raw args) ∷ []) })

-- The finaliser. The list `rlist` is left as it is.
unfoldable pub request_free : Env → ℕ → M (Unit {0})
request_free env self = do
  mr ← load self
  checked env (Call.request_free mr.handle)
  lift (free_buf mr.buf)
  λ w. (ok tt, record w { heap = set w.heap self none })

-- The `int` of the comparison goes out as a VALUE.
unfoldable pub request_null_p : Env → ℕ → M Value
request_null_p env self = do
  mr ← load self
  pure (env.value_of_word (int_of_bool (mr.handle == env.request_null)))

unfoldable pub request_object : ℕ → M Value
request_object self = do mr ← load self; pure mr.obj
