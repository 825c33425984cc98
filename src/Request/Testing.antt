-- ===== src/Request/Testing.antt =====
-- mpi_request.c: `waitsome`, `testany`, `testall` and `testsome` on an Array of requests.
use mpi_ruby.Base.{
  ℕ, ◌+◌, ℤ, pos, pos_part, eq_int, true, false, List, [], ◌∷◌, map, Option, none, some, length,
  get_elem?, cells,
}
use mpi_ruby.Ruby.{Value, rb_bool, is_nonzero}
use mpi_ruby.Mpi.{Call, Reply, Status, Env}
use mpi_ruby.State.{M, pure, ◌>>=◌, ◌>>◌, lift, load}
use mpi_ruby.Request.Lifecycle.{awaits_size}
use mpi_ruby.Request.Many.{
  load_each, call_many, null_each, null_at, array_at, AnyResult, data_handle,
}

-- MPI::UNDEFINED, or requests, nil for an index outside the Array, with their statuses.
pub data SomeResult : Type 0 where
  undefined : SomeResult
  done : List (Option ℕ × Status) → SomeResult

-- The loop of `request_waitsome` and `request_testsome`, from `i` on, over the indices that MPI
-- returned. It nulls the request `i`, and takes the handle, the request and the status at the index.
unfoldable pub collect : Env → List ℕ → Reply → ℕ → List ℤ → M (List (Option ℕ × Status))
collect env rreqs r i [] = pure []
collect env rreqs r i (index ∷ rest) = do
  req ← lift (array_at r.handles index)
  null_at env req rreqs (pos i)
  stat ← lift (array_at r.statuses index)
  more ← collect env rreqs r (i + 1) rest
  pure ((get_elem? rreqs (pos_part index), stat) ∷ more)

unfoldable pub request_waitsome : Env → List ℕ → M SomeResult
request_waitsome env rreqs = do
  mrs ← load_each rreqs
  r ← call_many env (Call.waitsome (map (λ mr. mr.handle) mrs)) rreqs
  elim (eq_int r.out0 env.mpi_undefined) [
    | true ↦ pure SomeResult.undefined
    | false ↦ do
      found ← collect env rreqs r 0 (cells (pos_part r.out0) env.junk_int r.array0)
      pure (SomeResult.done found)
  ]

unfoldable pub request_testany : Env → List ℕ → M AnyResult
request_testany env rreqs = do
  mrs ← load_each rreqs
  r ← call_many env (Call.testany (map (data_handle env) mrs)) rreqs
  elim (eq_int r.out0 env.mpi_undefined) [
    | true ↦ pure AnyResult.undefined
    | false ↦ do
      req ← lift (array_at r.handles r.out0)
      null_at env req rreqs r.out0
      pure (AnyResult.tested r.out0 (rb_bool (is_nonzero r.out1)) r.status)
  ]

-- The first loop of `request_testall`: the handles, or none at the first receive that awaits its size.
unfoldable pub ready_handles : List ℕ → M (Option (List ℕ))
ready_handles [] = pure (some [])
ready_handles (a ∷ rest) = do
  mr ← load a
  elim (awaits_size mr) [
    | true ↦ pure none
    | false ↦ do
      reqs ← ready_handles rest
      pure (elim reqs [ none ↦ none | some hs ↦ some (mr.handle ∷ hs) ])
  ]

unfoldable pub request_testall : Env → List ℕ → M (Value × Option (List Status))
request_testall env rreqs = do
  reqs ← ready_handles rreqs
  elim reqs [
    | none ↦ pure (Value.qfalse, none)
    | some hs ↦ do
      r ← call_many env (Call.testall hs) rreqs
      null_each env rreqs r.handles
      pure (rb_bool (is_nonzero r.out0), some r.statuses)
  ]

-- The code compares the loop counter, which is the length here, with MPI_UNDEFINED.
unfoldable pub request_testsome : Env → List ℕ → M SomeResult
request_testsome env rreqs = do
  mrs ← load_each rreqs
  r ← call_many env (Call.testsome (map (λ mr. mr.handle) mrs)) rreqs
  elim (eq_int (pos (length rreqs)) env.mpi_undefined) [
    | true ↦ pure SomeResult.undefined
    | false ↦ do
      found ← collect env rreqs r 0 (cells (pos_part r.out0) env.junk_int r.array0)
      pure (SomeResult.done found)
  ]
