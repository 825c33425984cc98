-- ===== src/Request/Many.antt =====
-- mpi_request.c: the methods on an Array of requests. `rreqs` has the addresses of their structs.
-- MPI is given copies of the handles.
use mpi_ruby.Base.{
  ℕ, ℤ, pos, negsuc, pos_part, succ, eq_int, Bool, true, false, ◌&&◌, ◌||◌, List, [], ◌∷◌, map,
  Option, none, some, get_elem?, get_or, drop, cells, if◌then◌else◌, ◌==◌,
}
use mpi_ruby.Ruby.{Value, Bytes, Outcome, ok, raised, fault, Fault}
use mpi_ruby.Mpi.{Call, Reply, Status, Env}
use mpi_ruby.Exception.{mpi_exception}
use mpi_ruby.State.{Request, Stage, Buf, M, pure, ◌>>=◌, ◌>>◌, lift, call, load, store}
use mpi_ruby.Request.Memory.{free_buf, str_new2}
use mpi_ruby.Request.Watch.{request_unwatch}
use mpi_ruby.Request.Lifecycle.{awaits_size, post_data}

-- `Data_Get_Struct` of each element.
unfoldable pub load_each : List ℕ → M (List Request)
load_each [] = pure []
load_each (a ∷ rest) = do mr ← load a; mrs ← load_each rest; pure (mr ∷ mrs)

-- What MPI writes into the buffers of a receive that it completes.
abbrev pub with_arrival : Env → Option ℤ → Option Bytes → Request → Request
with_arrival env size payload mr = record mr {
  buflen = elim size [ none ↦ mr.buflen | some n ↦ n ];
  buf = elim payload [
    | none ↦ mr.buf
    | some bs ↦ elim mr.buf [
      | Buf.owned _ ↦ Buf.owned (cells (pos_part (succ mr.buflen)) env.junk_char bs)
      | b ↦ b
    ]
  ];
}

-- The same for each request of a call, before the call returns.
unfoldable pub deliver : Env → List ℕ → List (Option ℤ) → List (Option Bytes) → M (Unit {0})
deliver env [] sizes payloads = pure tt
deliver env (a ∷ rest) sizes payloads = do
  mr ← load a
  store a (with_arrival env (get_or sizes 0 none) (get_or payloads 0 none) mr)
  deliver env rest (drop 1 sizes) (drop 1 payloads)

-- A call on requests, with what it writes, and the check of its code.
unfoldable pub call_many : Env → Call → List ℕ → M Reply
call_many env c rreqs = do
  r ← call env c
  deliver env rreqs r.arrivals r.payloads
  lift (mpi_exception r.rv)
  pure r

-- `*mr->req = MPI_REQUEST_NULL`
unfoldable pub set_null : Env → ℕ → M (Unit {0})
set_null env a = do mr ← load a; store a (record mr { handle = env.request_null })

-- `if (req == MPI_REQUEST_NULL) ...` for the request at `a`.
unfoldable pub null_if : Env → ℕ → ℕ → M (Unit {0})
null_if env req a = elim (req == env.request_null) [ true ↦ set_null env a | false ↦ pure tt ]

-- An element of a C array.
abbrev pub array_at {ℓ} : {A : Type ℓ} → List A → ℤ → Outcome A
array_at xs (negsuc _) = fault Fault.out_of_bounds
array_at xs (pos i) = elim (get_elem? xs i) [ none ↦ fault Fault.out_of_bounds | some x ↦ ok x ]

-- `Data_Get_Struct(rb_ary_entry(rreqs, i), ...)` for an index of C's arrays.
abbrev pub request_at : Env → List ℕ → ℤ → Outcome ℕ
request_at env rreqs i = elim (get_elem? rreqs (pos_part i)) [
  | none ↦ raised env.not_data
  | some a ↦ ok a
]

-- `if (req == MPI_REQUEST_NULL) ...` for the request at index `i`.
unfoldable pub null_at : Env → ℕ → List ℕ → ℤ → M (Unit {0})
null_at env req rreqs i = elim (req == env.request_null) [
  | true ↦ do a ← lift (request_at env rreqs i); set_null env a
  | false ↦ pure tt
]

-- MPI::UNDEFINED, or the index and the status, with the flag where there is one.
pub data AnyResult : Type 0 where
  undefined : AnyResult
  finished : ℤ → Status → AnyResult
  tested : ℤ → Value → Status → AnyResult

-- `reqs[i]` and `sizereqs[i]` of `request_waitany`.
abbrev pub data_handle : Env → Request → ℕ
data_handle env mr = if awaits_size mr then env.request_null else mr.handle

abbrev pub size_handle : Env → Request → ℕ
size_handle env mr = if awaits_size mr then mr.handle else env.request_null

unfoldable pub all_await : List Request → Bool
all_await [] = true
all_await (mr ∷ rest) = awaits_size mr && all_await rest

-- The `mr` that the first loop leaves: the last request, or an uninitialised pointer.
unfoldable pub last_request : List ℕ → Outcome ℕ
last_request [] = fault Fault.indeterminate
last_request (a ∷ []) = ok a
last_request (_ ∷ a ∷ rest) = last_request (a ∷ rest)

-- The branch of `request_waitany` where every request awaits its size, behind MPI_Waitany, which
-- says that the request `i` has its size. The code of MPI_Wait is not looked at.
unfoldable pub waitany_size : Env → List ℕ → ℤ → Reply → M AnyResult
waitany_size env rreqs i r = do
  last ← lift (last_request rreqs)
  mr ← load last
  post_data env true last mr
  sizereq ← lift (array_at r.handles i)
  r' ← call env (Call.wait sizereq)
  a ← lift (request_at env rreqs i)
  mr₁ ← load a
  let mr₂ = record mr₁ {
    handle = if r'.handle == env.request_null then env.request_null else mr₁.handle;
  }
  store a mr₂
  str ← lift (str_new2 env mr₂.buf)
  obj ← lift (env.marshal_load str)
  store a (record mr₂ { obj = obj })
  lift (free_buf mr₂.buf)
  store a (record mr₂ { obj = obj; buf = Buf.null })
  request_unwatch a
  pure (AnyResult.finished i r'.status)

unfoldable pub waitany_data : Env → List ℕ → ℤ → Reply → M AnyResult
waitany_data env rreqs i r = do
  req ← lift (array_at r.handles i)
  null_at env req rreqs i
  pure (AnyResult.finished i r.status)

unfoldable pub request_waitany : Env → List ℕ → M AnyResult
request_waitany env rreqs = do
  mrs ← load_each rreqs
  elim (all_await mrs) [
    | true ↦ do
      r ← call_many env (Call.waitany (map (size_handle env) mrs)) rreqs
      elim (eq_int r.out0 env.mpi_undefined) [
        | true ↦ pure AnyResult.undefined
        | false ↦ waitany_size env rreqs r.out0 r
      ]
    | false ↦ do
      r ← call_many env (Call.waitany (map (data_handle env) mrs)) rreqs
      elim (eq_int r.out0 env.mpi_undefined) [
        | true ↦ pure AnyResult.undefined
        | false ↦ waitany_data env rreqs r.out0 r
      ]
  ]

unfoldable pub any_awaits : List Request → Bool
any_awaits [] = false
any_awaits (mr ∷ rest) = awaits_size mr || any_awaits rest

-- Every receive whose size has arrived goes to its second stage; the result is `reqs`.
unfoldable pub post_each : Env → List ℕ → M (List ℕ)
post_each env [] = pure []
post_each env (a ∷ rest) = do
  mr ← load a
  elim (awaits_size mr) [
    | true ↦ do
      mr₁ ← post_data env true a mr
      store a (record mr₁ { stage = Stage.tx_data })
      request_unwatch a
    | false ↦ pure tt
  ]
  mr₂ ← load a
  reqs ← post_each env rest
  pure (mr₂.handle ∷ reqs)

-- The loop over the results: the handles that MPI left, and the statuses.
unfoldable pub null_each : Env → List ℕ → List ℕ → M (Unit {0})
null_each env [] reqs = pure tt
null_each env (a ∷ rest) [] = lift (fault Fault.out_of_bounds)
null_each env (a ∷ rest) (req ∷ reqs) = do null_if env req a; null_each env rest reqs

unfoldable pub request_waitall : Env → List ℕ → M (List Status)
request_waitall env rreqs = do
  mrs ← load_each rreqs
  reqs ← elim (any_awaits mrs) [
    | true ↦ do call_many env (Call.waitall (map (size_handle env) mrs)) rreqs; post_each env rreqs
    | false ↦ pure (map (λ mr. mr.handle) mrs)
  ]
  r ← call_many env (Call.waitall reqs) rreqs
  null_each env rreqs r.handles
  pure r.statuses
