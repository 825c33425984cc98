-- ===== src/Request/TidyAny.antt =====
-- mpi_request.c: `waitany` and `startall` keep the requests in order.
use mpi_ruby.Base.{
  ℕ, ℤ, refl, eq_int, Bool, true, false, List, [], ◌∷◌, ◌++◌, map, if◌then◌else◌, ◌==◌,
}
use mpi_ruby.Ruby.{Value, Bytes, raised}
use mpi_ruby.Mpi.{Call, Reply, Env}
use mpi_ruby.State.{Request, ReqType, Buf, M, pure, ◌>>=◌, ◌>>◌, lift, call, load, store, checked}
use mpi_ruby.State.Keeps.{Keeps-checked}
use mpi_ruby.Request.Memory.{free_buf, str_new2}
use mpi_ruby.Request.Watch.{request_unwatch}
use mpi_ruby.Request.Lifecycle.{post_data}
use mpi_ruby.Request.Many.{
  AnyResult, load_each, call_many, all_await, data_handle, size_handle, last_request, null_at,
  array_at, request_at, waitany_size, waitany_data, request_waitany,
}
use mpi_ruby.Request.Start.{startall_from, request_startall}
use mpi_ruby.Request.Discipline.{
  Discipline, Leaves, Leaves-loaded, Leaves-stored, Leaves-call, Leaves-lift, Leaves-load_each,
  Leaves-call_many, Leaves-null_at,
}
use mpi_ruby.Request.Parts.{Leaves-then, Leaves-post_data, Leaves-request_unwatch}
use mpi_ruby.Request.Tidy.{HasMemory, Kind}
use mpi_ruby.Request.TidyPost.{tidy}

-- The parts of `waitany` behind its tests.
abbrev any_size : Env → List ℕ → Reply → Bool → M AnyResult
any_size env bs r c = elim c [
  | true ↦ pure AnyResult.undefined
  | false ↦ waitany_size env bs r.out0 r
]

abbrev any_data : Env → List ℕ → Reply → Bool → M AnyResult
any_data env bs r c = elim c [
  | true ↦ pure AnyResult.undefined
  | false ↦ waitany_data env bs r.out0 r
]

abbrev any_of : Env → List ℕ → List Request → Bool → M AnyResult
any_of env bs mrs c = elim c [
  | true ↦ do
    r ← call_many env (Call.waitany (map (size_handle env) mrs)) bs
    any_size env bs r (eq_int r.out0 env.mpi_undefined)
  | false ↦ do
    r ← call_many env (Call.waitany (map (data_handle env) mrs)) bs
    any_data env bs r (eq_int r.out0 env.mpi_undefined)
]

abbrev one_started : Env → List ℕ → List ℕ → Request → ReqType → M (List ℕ)
one_started env reqs rest mr type = elim type [
  | ReqType.normal ↦ startall_from env (reqs ++ (mr.handle ∷ [])) rest
  | _ ↦ lift (raised env.not_data)
]

module _ (env : Env) (d : Discipline env) where
  Leaves-startall_from : (reqs bs : List ℕ) → Leaves env d (startall_from env reqs bs)
  unfolding startall_from
  Leaves-startall_from reqs [] = λ w p. p
  Leaves-startall_from reqs (b ∷ bs) =
      Leaves-loaded env d b (λ mr. one_started env reqs bs mr mr.type)
        (λ mr _. go mr (Leaves-startall_from (reqs ++ (mr.handle ∷ [])) bs) mr.type)
    where
      go :
          (mr : Request)
          → Leaves env d (startall_from env (reqs ++ (mr.handle ∷ [])) bs)
          → (type : ReqType) → Leaves env d (one_started env reqs bs mr type)
      go mr rest ReqType.normal = rest
      go mr rest ReqType.psend = λ w p. p
      go mr rest ReqType.pbsend = λ w p. p
      go mr rest ReqType.pssend = λ w p. p
      go mr rest ReqType.prsend = λ w p. p
      go mr rest ReqType.receive = λ w p. p

  pub Leaves-request_startall : (bs : List ℕ) → Leaves env d (request_startall env bs)
  unfolding request_startall
  Leaves-request_startall bs =
      let last : List ℕ → M Value = λ reqs. checked env (Call.startall reqs) >> pure Value.qtrue in
      Leaves-then env d (startall_from env [] bs) last (Leaves-startall_from [] bs) λ reqs.
        Leaves-then env d (checked env (Call.startall reqs)) (λ _. pure Value.qtrue)
          (Keeps-checked d.Holds env (Call.startall reqs) d.calls) (λ _ w p. p)

  Leaves-waitany_data : (bs : List ℕ) (i : ℤ) (r : Reply) → Leaves env d (waitany_data env bs i r)
  unfolding waitany_data
  Leaves-waitany_data bs i r =
      let last : M AnyResult = pure (AnyResult.finished i r.status) in
      Leaves-lift env d (array_at r.handles i) (λ req. null_at env req bs i >> last)
        λ req.
          Leaves-then env d (null_at env req bs i) (λ _. last) (Leaves-null_at env d req bs i)
            (λ _ w p. p)

module _ (env : Env) (memory : HasMemory env) (types : ℕ → ReqType) (room : ℕ) (pins : List ℕ) where
  abbrev order : Discipline env
  order = tidy env memory types room pins

  -- What `waitany_size` does with the request that has finished.
  abbrev finish : ℤ → ℕ → Reply → Request → M AnyResult
  finish i a r' mr₁ =
      let mr₂ = record mr₁ {
        handle = if r'.handle == env.request_null then env.request_null else mr₁.handle;
      } in
      store a mr₂
      >> (lift (str_new2 env mr₂.buf) >>= λ str. lift (env.marshal_load str) >>= λ obj.
          store a (record mr₂ { obj = obj })
          >> (lift (free_buf mr₂.buf)
              >> (store a (record mr₂ { obj = obj; buf = Buf.null })
                  >> (request_unwatch a >> pure (AnyResult.finished i r'.status)))))

  Tidy-finish :
      (i : ℤ) (a : ℕ) (r' : Reply) (mr₁ : Request)
      → Kind types a mr₁
      → Leaves env order (finish i a r' mr₁)
  Tidy-finish i a r' mr₁ kind =
      let mr₂ : Request = record mr₁ {
        handle = if r'.handle == env.request_null then env.request_null else mr₁.handle;
      } in
      let last : M AnyResult = pure (AnyResult.finished i r'.status) in
      let k₄ : Value → M AnyResult =
        λ obj. store a (record mr₂ { obj = obj; buf = Buf.null }) >> (request_unwatch a >> last) in
      let k₃ : Value → M AnyResult =
        λ obj. store a (record mr₂ { obj = obj }) >> (lift (free_buf mr₂.buf) >> k₄ obj) in
      let k₂ : Bytes → M AnyResult = λ str. lift (env.marshal_load str) >>= k₃ in
      Leaves-stored env order a mr₂ (lift (str_new2 env mr₂.buf) >>= k₂) kind (
        Leaves-lift env order (str_new2 env mr₂.buf) k₂ λ str.
          Leaves-lift env order (env.marshal_load str) k₃ λ obj.
            Leaves-stored env order a (record mr₂ { obj = obj }) (lift (free_buf mr₂.buf) >> k₄ obj)
              kind
              (Leaves-lift env order (free_buf mr₂.buf) (λ _. k₄ obj)
                λ _.
                  Leaves-stored env order a (record mr₂ { obj = obj; buf = Buf.null })
                    (request_unwatch a >> last) (kind.0, λ e. (refl, (kind.1 e).1))
                    (Leaves-then env order (request_unwatch a) (λ _. last)
                      (Leaves-request_unwatch env order a) (λ _ w p. p))))

  Tidy-waitany_size : (bs : List ℕ) (i : ℤ) (r : Reply) → Leaves env order (waitany_size env bs i r)
  unfolding waitany_size
  Tidy-waitany_size bs i r =
      let k₂ : Reply → M AnyResult =
        λ r'. lift (request_at env bs i) >>= λ a. load a >>= finish i a r' in
      let k₁ : M AnyResult =
        lift (array_at r.handles i) >>= λ sizereq. call env (Call.wait sizereq) >>= k₂ in
      Leaves-lift env order (last_request bs)
        (λ last. load last >>= λ mr. post_data env true last mr >> k₁)
        λ last.
          Leaves-loaded env order last (λ mr. post_data env true last mr >> k₁)
            λ mr kind.
              Leaves-post_data env order true last mr (λ _. k₁) kind
                λ _ _.
                  Leaves-lift env order (array_at r.handles i)
                    (λ sizereq. call env (Call.wait sizereq) >>= k₂)
                    λ sizereq. Leaves-call env order (Call.wait sizereq) k₂ λ r'.
                      Leaves-lift env order (request_at env bs i) (λ a. load a >>= finish i a r')
                        λ a. Leaves-loaded env order a (finish i a r') (Tidy-finish i a r')

  pub Tidy-request_waitany : (bs : List ℕ) → Leaves env order (request_waitany env bs)
  unfolding request_waitany
  Tidy-request_waitany bs =
      Leaves-then env order (load_each bs) (λ mrs. any_of env bs mrs (all_await mrs))
        (Leaves-load_each env order bs) (λ mrs. go mrs (all_await mrs))
    where
      at_size : (r : Reply) (c : Bool) → Leaves env order (any_size env bs r c)
      at_size r true = λ w p. p
      at_size r false = Tidy-waitany_size bs r.out0 r

      at_data : (r : Reply) (c : Bool) → Leaves env order (any_data env bs r c)
      at_data r true = λ w p. p
      at_data r false = Leaves-waitany_data env order bs r.out0 r

      go : (mrs : List Request) (c : Bool) → Leaves env order (any_of env bs mrs c)
      go mrs true =
          let ask = Call.waitany (map (size_handle env) mrs) in
          Leaves-then env order (call_many env ask bs)
            (λ r. any_size env bs r (eq_int r.out0 env.mpi_undefined))
            (Leaves-call_many env order ask bs) (λ r. at_size r (eq_int r.out0 env.mpi_undefined))
      go mrs false =
          let ask = Call.waitany (map (data_handle env) mrs) in
          Leaves-then env order (call_many env ask bs)
            (λ r. any_data env bs r (eq_int r.out0 env.mpi_undefined))
            (Leaves-call_many env order ask bs) (λ r. at_data r (eq_int r.out0 env.mpi_undefined))
