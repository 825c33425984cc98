-- ===== src/Request/Methods.antt =====
-- mpi_request.c: waiting for several requests and testing them keep an invariant.
use mpi_ruby.Base.{
  ℕ, refl, pos, pos_part, eq_int, Bool, true, false, List, [], ◌∷◌, Option, none, some, length, map,
  cells,
}
use mpi_ruby.Ruby.{Value, rb_bool, is_nonzero}
use mpi_ruby.Mpi.{Call, Reply, Status, Env}
use mpi_ruby.State.{Request, Stage, M, pure, ◌>>=◌, ◌>>◌, lift, load, store}
use mpi_ruby.Request.Watch.{request_unwatch}
use mpi_ruby.Request.Lifecycle.{awaits_size, post_data}
use mpi_ruby.Request.Many.{
  AnyResult, load_each, call_many, size_handle, data_handle, any_awaits, null_each, null_at,
  array_at, post_each, request_waitall,
}
use mpi_ruby.Request.Testing.{
  SomeResult, collect, ready_handles, request_waitsome, request_testany, request_testall,
  request_testsome,
}
use mpi_ruby.Request.Parts.{
  Leaves-then, Leaves-collected, Leaves-ready_handles, Leaves-request_unwatch, Leaves-post_data,
}
use mpi_ruby.Request.Discipline.{
  Discipline, Leaves, Leaves-loaded, Leaves-stored, Leaves-load_each, Leaves-call_many,
  Leaves-null_each, Leaves-null_at, Leaves-lift,
}

-- The parts of `testall`, `testany` and `waitall` behind their first loop.
abbrev testall_rest : Env → List ℕ → Option (List ℕ) → M (Value × Option (List Status))
testall_rest env bs reqs = elim reqs [
  | none ↦ pure (Value.qfalse, none)
  | some hs ↦ do
    r ← call_many env (Call.testall hs) bs
    null_each env bs r.handles
    pure (rb_bool (is_nonzero r.out0), some r.statuses)
]

abbrev testany_rest : Env → List ℕ → Reply → Bool → M AnyResult
testany_rest env bs r c = elim c [
  | true ↦ pure AnyResult.undefined
  | false ↦ do
    req ← lift (array_at r.handles r.out0)
    null_at env req bs r.out0
    pure (AnyResult.tested r.out0 (rb_bool (is_nonzero r.out1)) r.status)
]

abbrev waitall_sizes : Env → List ℕ → List Request → Bool → M (List ℕ)
waitall_sizes env bs mrs c = elim c [
  | true ↦ do call_many env (Call.waitall (map (size_handle env) mrs)) bs; post_each env bs
  | false ↦ pure (map (λ mr. mr.handle) mrs)
]

abbrev post_one : Env → ℕ → Request → Bool → M (Unit {0})
post_one env b mr c = elim c [
  | true ↦ do
    mr₁ ← post_data env true b mr
    store b (record mr₁ { stage = Stage.tx_data })
    request_unwatch b
  | false ↦ pure tt
]

module _ (env : Env) (d : Discipline env) where
  pub Leaves-request_waitsome : (bs : List ℕ) → Leaves env d (request_waitsome env bs)
  unfolding request_waitsome
  Leaves-request_waitsome bs =
      let ask : List Request → Call = λ mrs. Call.waitsome (map (λ mr. mr.handle) mrs) in
      let k : Reply → M SomeResult = λ r. elim (eq_int r.out0 env.mpi_undefined) [
        | true ↦ pure SomeResult.undefined
        | false ↦ collect env bs r 0 (cells (pos_part r.out0) env.junk_int r.array0) >>= λ found.
            pure (SomeResult.done found)
      ] in
      Leaves-then env d (load_each bs) (λ mrs. call_many env (ask mrs) bs >>= k)
        (Leaves-load_each env d bs)
        λ mrs.
          Leaves-then env d (call_many env (ask mrs) bs) k (Leaves-call_many env d (ask mrs) bs)
            (λ r. Leaves-collected env d bs r (eq_int r.out0 env.mpi_undefined))

  pub Leaves-request_testsome : (bs : List ℕ) → Leaves env d (request_testsome env bs)
  unfolding request_testsome
  Leaves-request_testsome bs =
      let ask : List Request → Call = λ mrs. Call.testsome (map (λ mr. mr.handle) mrs) in
      let k : Reply → M SomeResult = λ r. elim (eq_int (pos (length bs)) env.mpi_undefined) [
        | true ↦ pure SomeResult.undefined
        | false ↦ collect env bs r 0 (cells (pos_part r.out0) env.junk_int r.array0) >>= λ found.
            pure (SomeResult.done found)
      ] in
      Leaves-then env d (load_each bs) (λ mrs. call_many env (ask mrs) bs >>= k)
        (Leaves-load_each env d bs)
        λ mrs.
          Leaves-then env d (call_many env (ask mrs) bs) k (Leaves-call_many env d (ask mrs) bs)
            (λ r. Leaves-collected env d bs r (eq_int (pos (length bs)) env.mpi_undefined))

  pub Leaves-request_testall : (bs : List ℕ) → Leaves env d (request_testall env bs)
  unfolding request_testall
  Leaves-request_testall bs =
      Leaves-then env d (ready_handles bs) (testall_rest env bs) (Leaves-ready_handles env d bs) go
    where
      go : (reqs : Option (List ℕ)) → Leaves env d (testall_rest env bs reqs)
      go none = λ w p. p
      go (some hs) =
          let last : Reply → M (Value × Option (List Status)) =
            λ r. pure (rb_bool (is_nonzero r.out0), some r.statuses) in
          Leaves-then env d (call_many env (Call.testall hs) bs)
            (λ r. null_each env bs r.handles >> last r)
            (Leaves-call_many env d (Call.testall hs) bs)
            (λ r.
              Leaves-then env d (null_each env bs r.handles) (λ _. last r)
                (Leaves-null_each env d bs r.handles) (λ _ w p. p))

  pub Leaves-request_testany : (bs : List ℕ) → Leaves env d (request_testany env bs)
  unfolding request_testany
  Leaves-request_testany bs =
      let ask : List Request → Call = λ mrs. Call.testany (map (data_handle env) mrs) in
      let k : Reply → M AnyResult = λ r. testany_rest env bs r (eq_int r.out0 env.mpi_undefined) in
      Leaves-then env d (load_each bs) (λ mrs. call_many env (ask mrs) bs >>= k)
        (Leaves-load_each env d bs)
        λ mrs.
          Leaves-then env d (call_many env (ask mrs) bs) k (Leaves-call_many env d (ask mrs) bs)
            (λ r. go r (eq_int r.out0 env.mpi_undefined))
    where
      go : (r : Reply) (c : Bool) → Leaves env d (testany_rest env bs r c)
      go r true = λ w p. p
      go r false =
          let last : M AnyResult =
            pure (AnyResult.tested r.out0 (rb_bool (is_nonzero r.out1)) r.status) in
          Leaves-lift env d (array_at r.handles r.out0) (λ req. null_at env req bs r.out0 >> last)
            (λ req.
              Leaves-then env d (null_at env req bs r.out0) (λ _. last)
                (Leaves-null_at env d req bs r.out0) (λ _ w p. p))

  Leaves-post_each : (bs : List ℕ) → Leaves env d (post_each env bs)
  unfolding post_each
  Leaves-post_each [] = λ w p. p
  Leaves-post_each (b ∷ bs) =
      let put : Request → List ℕ → M (List ℕ) = λ mr reqs. pure (mr.handle ∷ reqs) in
      let rest : M (List ℕ) = load b >>= λ mr. post_each env bs >>= put mr in
      Leaves-loaded env d b (λ mr. post_one env b mr (awaits_size mr) >> rest)
        (λ mr fit.
          Leaves-then env d (post_one env b mr (awaits_size mr)) (λ _. rest)
            (one mr fit (awaits_size mr))
            (λ _.
              Leaves-loaded env d b (λ mr. post_each env bs >>= put mr)
                (λ mr _.
                  Leaves-then env d (post_each env bs) (put mr) (Leaves-post_each bs)
                    (λ reqs w p. p))))
    where
      one : (mr : Request) → d.Fits b mr → (c : Bool) → Leaves env d (post_one env b mr c)
      one mr fit false = λ w p. p
      one mr fit true =
          Leaves-post_data env d true b mr
            (λ mr₁. store b (record mr₁ { stage = Stage.tx_data }) >> request_unwatch b) fit
            (λ mr₁ fit₁.
              Leaves-stored env d b (record mr₁ { stage = Stage.tx_data }) (request_unwatch b)
                (d.alters b mr₁ (record mr₁ { stage = Stage.tx_data }) refl refl (λ e. e) fit₁)
                (Leaves-request_unwatch env d b))

  pub Leaves-request_waitall : (bs : List ℕ) → Leaves env d (request_waitall env bs)
  unfolding request_waitall
  Leaves-request_waitall bs =
      let last : Reply → M (List Status) = λ r. pure r.statuses in
      let second : List ℕ → M (List Status) = λ reqs.
        call_many env (Call.waitall reqs) bs >>= λ r. null_each env bs r.handles >> last r in
      Leaves-then env d (load_each bs) (λ mrs. waitall_sizes env bs mrs (any_awaits mrs) >>= second)
        (Leaves-load_each env d bs)
        λ mrs.
          Leaves-then env d (waitall_sizes env bs mrs (any_awaits mrs)) second
            (sizes mrs (any_awaits mrs))
            λ reqs.
              Leaves-then env d (call_many env (Call.waitall reqs) bs)
                (λ r. null_each env bs r.handles >> last r)
                (Leaves-call_many env d (Call.waitall reqs) bs)
                (λ r.
                  Leaves-then env d (null_each env bs r.handles) (λ _. last r)
                    (Leaves-null_each env d bs r.handles) (λ _ w p. p))
    where
      sizes : (mrs : List Request) (c : Bool) → Leaves env d (waitall_sizes env bs mrs c)
      sizes mrs false = λ w p. p
      sizes mrs true =
          let ask : Call = Call.waitall (map (size_handle env) mrs) in
          Leaves-then env d (call_many env ask bs) (λ _. post_each env bs)
            (Leaves-call_many env d ask bs) (λ _. Leaves-post_each bs)
