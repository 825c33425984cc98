-- ===== src/Request/TidyWait.antt =====
-- mpi_request.c: `wait`, `test` and `cancel` keep the requests in order.
use mpi_ruby.Base.{
  ℕ, ◌≡◌, refl, ◌∙◌, Bool, true, false, List, Option, none, some, arith, Option-cases, inl, inr,
}
use mpi_ruby.Ruby.{Value, ok, rb_bool, is_nonzero}
use mpi_ruby.Mpi.{Call, Reply, Status, Env}
use mpi_ruby.Exception.{mpi_exception}
use mpi_ruby.State.{Request, ReqType, Stage, Buf, M, pure, ◌>>=◌, ◌>>◌, lift, call, store, checked}
use mpi_ruby.State.Keeps.{Keeps-checked}
use mpi_ruby.Request.Memory.{free_buf, str_new2}
use mpi_ruby.Request.Watch.{request_unwatch}
use mpi_ruby.Request.Lifecycle.{
  is_receive, awaits_size, with_size, with_bytes, post_data, wait_size, take_object, wait_data,
  request_wait, request_test, request_cancel,
}
use mpi_ruby.Request.Drain.{Postable-with_size}
use mpi_ruby.Request.Discipline.{
  Discipline, Postable, Leaves, Leaves-loaded, Leaves-stored, Leaves-store, Leaves-call,
  Leaves-answered, Leaves-lift,
}
use mpi_ruby.Request.Parts.{Leaves-then, Leaves-request_unwatch, Leaves-post_data}
use mpi_ruby.Request.Tidy.{HasMemory, Kind, IsSize}
use mpi_ruby.Request.TidyPost.{tidy}

-- The structs after a call that completes a request.
pub type-with_size : (r : Reply) (mr : Request) → (with_size r mr).type ≡ mr.type
type-with_size r mr = elim (Option-cases r.arrived) [
  | inl e ↦ ground (arith, e)
  | inr (n, e) ↦ ground (arith, e)
]

pub obj-with_size : (r : Reply) (mr : Request) → (with_size r mr).obj ≡ mr.obj
obj-with_size r mr = elim (Option-cases r.arrived) [
  | inl e ↦ ground (arith, e)
  | inr (n, e) ↦ ground (arith, e)
]

free_buf-with_bytes :
    (env : Env) (r : Reply) (mr : Request)
    → free_buf mr.buf ≡ ok tt
    → free_buf (with_bytes env r mr).buf ≡ ok tt
free_buf-with_bytes env r mr free = ground (arith, free)

Postable-with_bytes :
    (env : Env) (r : Reply) (mr : Request)
    → Postable IsSize mr
    → Postable IsSize (with_bytes env r mr)
Postable-with_bytes env r mr (free, len) = (free_buf-with_bytes env r mr free, len)

-- The parts of `wait`, `test` and `cancel` behind a test.
abbrev taken : Env → ℕ → Request → Bool → M (Unit {0})
taken env self mr c = elim c [ true ↦ take_object env self mr | false ↦ pure tt ]

abbrev sized : Env → ℕ → Request → Bool → M (Unit {0})
sized env self mr c = elim c [ true ↦ wait_size env self mr | false ↦ pure tt ]

abbrev asked : Env → ℕ → Request → Bool → M (Value × Option Status)
asked env self mr c = elim c [
  | true ↦ pure (Value.qfalse, none)
  | false ↦ do
    r ← call env (Call.test mr.handle)
    store self (record mr { handle = r.handle })
    lift (mpi_exception r.rv)
    pure (rb_bool (is_nonzero r.out0), some r.status)
]

abbrev withdrawn : ℕ → Request → Bool → M (Unit {0})
withdrawn self mr c = elim c [
  | true ↦ do
    lift (free_buf mr.buf)
    store self (record mr { stage = Stage.tx_size; buf = Buf.null })
    request_unwatch self
  | false ↦ pure tt
]

module _ (env : Env) (memory : HasMemory env) (types : ℕ → ReqType) (room : ℕ) (pins : List ℕ) where
  abbrev order : Discipline env
  order = tidy env memory types room pins

  Tidy-take_object :
      (self : ℕ) (mr : Request) → Kind types self mr → Leaves env order (take_object env self mr)
  unfolding take_object
  Tidy-take_object self mr (t, free) =
      let empty : Value → Request = λ obj. record mr { obj = obj; buf = Buf.null } in
      let freed_buf : Value → M (Unit {0}) =
        λ obj. lift (free_buf mr.buf) >> store self (empty obj) in
      let loaded : Value → M (Unit {0}) =
        λ obj. store self (record mr { obj = obj }) >> freed_buf obj in
      Leaves-lift env order (str_new2 env mr.buf) (λ str. lift (env.marshal_load str) >>= loaded)
        λ str. Leaves-lift env order (env.marshal_load str) loaded λ obj.
          Leaves-stored env order self (record mr { obj = obj }) (freed_buf obj) (t, free)
            (Leaves-lift env order (free_buf mr.buf) (λ _. store self (empty obj))
              λ _. Leaves-store env order self (empty obj) (t, λ r. (refl, (free r).1)))

  Tidy-wait_size :
      (self : ℕ) (mr : Request) → Kind types self mr → Leaves env order (wait_size env self mr)
  unfolding wait_size
  Tidy-wait_size self mr (t, free) =
      let last : Request → M (Unit {0}) =
        λ mr₂. request_unwatch self >> store self (record mr₂ { stage = Stage.tx_data }) in
      let posted : Request → M (Unit {0}) = λ mr₁. post_data env true self mr₁ >>= last in
      let stored : Reply → M (Unit {0}) = λ r.
        store self (with_size r mr) >> (lift (mpi_exception r.rv) >> posted (with_size r mr)) in
      Leaves-answered env order (Call.wait mr.handle) stored λ log.
        let r = env.reply log (Call.wait mr.handle) in
        let kind : Kind types self (with_size r mr) = (
          type-with_size r mr ∙ t,
          λ e. Postable-with_size IsSize r mr (order.arrives log (Call.wait mr.handle)) (free e),
        ) in
        Leaves-stored env order self (with_size r mr)
          (lift (mpi_exception r.rv) >> posted (with_size r mr)) kind
          (Leaves-lift env order (mpi_exception r.rv) (λ _. posted (with_size r mr))
            λ _. Leaves-post_data env order true self (with_size r mr) last kind λ mr₂ kind₂.
              Leaves-then env order (request_unwatch self)
                (λ _. store self (record mr₂ { stage = Stage.tx_data }))
                (Leaves-request_unwatch env order self)
                λ _. Leaves-store env order self (record mr₂ { stage = Stage.tx_data }) kind₂)

  Tidy-wait_data : (self : ℕ) → Leaves env order (wait_data env self)
  unfolding wait_data
  Tidy-wait_data self =
      let got : Request → Reply → Request =
        λ mr r. record (with_bytes env r mr) { peer = r.status.source } in
      let last : Request → Reply → M Status =
        λ mr r. taken env self (got mr r) (is_receive mr.type) >> pure r.status in
      let stored : Request → Reply → M Status =
        λ mr r. store self (got mr r) >> (lift (mpi_exception r.rv) >> last mr r) in
      Leaves-loaded env order self (λ mr. call env (Call.wait mr.handle) >>= stored mr)
        λ mr kind. Leaves-call env order (Call.wait mr.handle) (stored mr) λ r.
          let kind' : Kind types self (got mr r) =
            (kind.0, λ e. Postable-with_bytes env r mr (kind.1 e)) in
          Leaves-stored env order self (got mr r) (lift (mpi_exception r.rv) >> last mr r) kind' (
            Leaves-lift env order (mpi_exception r.rv) (λ _. last mr r)
              λ _.
                Leaves-then env order (taken env self (got mr r) (is_receive mr.type))
                  (λ _. pure r.status) (take_or_not (got mr r) kind' (is_receive mr.type))
                  (λ _ w p. p))
    where
      take_or_not :
          (mr : Request) → Kind types self mr → (c : Bool) → Leaves env order (taken env self mr c)
      take_or_not mr kind true = Tidy-take_object self mr kind
      take_or_not mr kind false = λ w p. p

  pub Tidy-request_wait : (self : ℕ) → Leaves env order (request_wait env self)
  unfolding request_wait
  Tidy-request_wait self =
      Leaves-loaded env order self (λ mr. sized env self mr (awaits_size mr) >> wait_data env self)
        λ mr kind.
          Leaves-then env order (sized env self mr (awaits_size mr)) (λ _. wait_data env self)
            (size_or_not mr kind (awaits_size mr)) (λ _. Tidy-wait_data self)
    where
      size_or_not :
          (mr : Request) → Kind types self mr → (c : Bool) → Leaves env order (sized env self mr c)
      size_or_not mr kind true = Tidy-wait_size self mr kind
      size_or_not mr kind false = λ w p. p

  pub Tidy-request_test : (self : ℕ) → Leaves env order (request_test env self)
  unfolding request_test
  Tidy-request_test self =
      Leaves-loaded env order self (λ mr. asked env self mr (awaits_size mr))
        (λ mr kind. go mr kind (awaits_size mr))
    where
      go : (mr : Request) → Kind types self mr → (c : Bool) → Leaves env order (asked env self mr c)
      go mr kind true = λ w p. p
      go mr kind false =
          let answer : Reply → M (Value × Option Status) =
            λ r. pure (rb_bool (is_nonzero r.out0), some r.status) in
          Leaves-call env order (Call.test mr.handle)
            (λ r.
              store self (record mr { handle = r.handle })
              >> (lift (mpi_exception r.rv) >> answer r))
            λ r.
              Leaves-stored env order self (record mr { handle = r.handle })
                (lift (mpi_exception r.rv) >> answer r) kind
                (Leaves-lift env order (mpi_exception r.rv) (λ _. answer r) (λ _ w p. p))

  pub Tidy-request_cancel : (self : ℕ) → Leaves env order (request_cancel env self)
  unfolding request_cancel
  Tidy-request_cancel self =
      let last : Request → M Value =
        λ mr. checked env (Call.cancel mr.handle) >> pure Value.qtrue in
      Leaves-loaded env order self (λ mr. withdrawn self mr (is_receive mr.type) >> last mr)
        λ mr kind.
          Leaves-then env order (withdrawn self mr (is_receive mr.type)) (λ _. last mr)
            (go mr kind (is_receive mr.type))
            λ _.
              Leaves-then env order (checked env (Call.cancel mr.handle)) (λ _. pure Value.qtrue)
                (Keeps-checked order.Holds env (Call.cancel mr.handle) order.calls) (λ _ w p. p)
    where
      go : (mr : Request) → Kind types self mr → (c : Bool) → Leaves env order (withdrawn self mr c)
      go mr kind false = λ w p. p
      go mr kind true =
          let mr' : Request = record mr { stage = Stage.tx_size; buf = Buf.null } in
          Leaves-lift env order (free_buf mr.buf) (λ _. store self mr' >> request_unwatch self)
            λ _.
              Leaves-stored env order self mr' (request_unwatch self)
                (kind.0, λ r. (refl, (kind.1 r).1)) (Leaves-request_unwatch env order self)
