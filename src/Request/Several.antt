-- ===== src/Request/Several.antt =====
-- mpi_request.c: waiting for several requests and testing them leave the objects of the requests.
use mpi_ruby.Base.{
  ℤ, List, [], ◌∷◌, none, ℕ, zero, suc, ◌≡◌, ◌≢◌, ap, ◌∙◌, sym, Bool, true, false, List, [], ◌∷◌,
  Option, some, succ, pos_part, cells, get_elem?, set, get_elem?-set_ne, ◌==◌, Bool-cases, inl, inr,
  arith,
}
use mpi_ruby.Ruby.{Value, Outcome, ok}
use mpi_ruby.Exception.{mpi_exception}
use mpi_ruby.Mpi.{Call, Datatype, Reply, Env}
use mpi_ruby.State.{Request, Buf, World, M, pure, ◌>>=◌, ◌>>◌, lift, call, store}
use mpi_ruby.State.Keeps.{Keeps, Gives, Keeps-then, Gives-then}
use mpi_ruby.Request.Memory.{free_buf, freed}
use mpi_ruby.Request.Lifecycle.{post_data}
use mpi_ruby.Request.Many.{request_waitall}
use mpi_ruby.Request.Testing.{request_waitsome, request_testany, request_testall, request_testsome}
use mpi_ruby.Request.Discipline.{AllSizes, Discipline}
use mpi_ruby.Request.Methods.{
  Leaves-request_waitall, Leaves-request_waitsome, Leaves-request_testany, Leaves-request_testall,
  Leaves-request_testsome,
}

-- The request at address `a` has the object `v`.
abbrev pub ObjectIs : ℕ → Value → World → Type 0
ObjectIs a v w = (mr : Request) → get_elem? w.heap a ≡ some (some mr) → mr.obj ≡ v

module _ (a : ℕ) (v : Value) where
  -- Where the struct at `b` is the one in question, its object is `v`.
  abbrev HasObject : ℕ → Request → Type 0
  HasObject b mr = b ≡ a → mr.obj ≡ v

  ObjectIs-store : (b : ℕ) (mr : Request) → HasObject b mr → Keeps (ObjectIs a v) (store b mr)
  ObjectIs-store b mr fit w p mr' h = elim (Bool-cases (b == a)) [
    | inl same ↦
        let ba : b ≡ a = ground (arith, same) in
        let stored : set w.heap b (some mr) ≡ set w.heap a (some mr) =
          ap (λ t. set w.heap t (some mr)) ba in
        let at : get_elem? (set w.heap a (some mr)) a ≡ some (some mr') =
          ap (λ t. get_elem? t a) (sym stored) ∙ h in
        replaced w.heap a mr mr' at ∙ fit ba
    | inr differ ↦
        let ne : b ≢ a = ground (arith, differ) in
        p mr' (sym (get_elem?-set_ne w.heap b a (some mr) ne) ∙ h)
  ]
    where
      replaced :
          (heap : List (Option Request)) (i : ℕ) (x y : Request)
          → get_elem? (set heap i (some x)) i ≡ some (some y)
          → y.obj ≡ x.obj
      replaced [] i x y h = cc
      replaced (_ ∷ heap) zero x y h = cc
      replaced (_ ∷ heap) (suc i) x y h = replaced heap i x y h

  -- The parts of `post_data`, in their order.
  module _ (env : Env) (checks : Bool) (b : ℕ) (mr : Request) where
    abbrev mr₁ : Request
    mr₁ = record mr { buf = freed mr.buf }

    abbrev mr₂ : Request
    mr₂ = record mr { buf = Buf.owned (cells (pos_part (succ mr.buflen)) env.junk_char []) }

    abbrev mr₃ : Reply → Request
    mr₃ r = record mr₂ { handle = r.handle }

    abbrev receive : Call
    receive = Call.irecv (succ mr.buflen) Datatype.mpi_byte mr.peer mr.tag mr.comm

    abbrev check : Reply → Outcome (Unit {0})
    check r = elim checks [ true ↦ mpi_exception r.rv | false ↦ ok tt ]

    abbrev fourth : Reply → M Request
    fourth r = store b (mr₃ r) >> (lift (check r) >> pure (mr₃ r))

    abbrev third : M Request
    third = store b mr₂ >> (call env receive >>= fourth)

    abbrev second : M Request
    second = store b mr₁ >> (lift (env.alloc_n (succ mr.buflen)) >> third)

    ObjectIs-stored :
        {B : Type 0} (x : Request) (m : M B)
        → HasObject b x
        → Keeps (ObjectIs a v) m
        → Keeps (ObjectIs a v) (store b x >> m)
    ObjectIs-stored x m fit hm =
        Keeps-then (ObjectIs a v) (store b x) (λ _. m) (ObjectIs-store b x fit) (λ _. hm)

    ObjectIs-post_data : HasObject b mr → Keeps (ObjectIs a v) (post_data env checks b mr)
    unfolding post_data
    ObjectIs-post_data fit =
        let P = ObjectIs a v in
        Keeps-then P (lift (free_buf mr.buf)) (λ _. second) (λ w p. p)
          λ _. ObjectIs-stored mr₁ (lift (env.alloc_n (succ mr.buflen)) >> third) fit (
            Keeps-then P (lift (env.alloc_n (succ mr.buflen))) (λ _. third) (λ w p. p)
              λ _. ObjectIs-stored mr₂ (call env receive >>= fourth) fit (
                Keeps-then P (call env receive) fourth (λ w p. p)
                  λ r.
                    ObjectIs-stored (mr₃ r) (lift (check r) >> pure (mr₃ r)) fit
                      (Keeps-then P (lift (check r)) (λ _. pure (mr₃ r)) (λ w p. p) (λ _ w p. p))))

    HasObject-post_data :
        HasObject b mr → Gives (λ _. Unit) (HasObject b) (post_data env checks b mr)
    unfolding post_data
    HasObject-post_data fit =
        ends (lift (free_buf mr.buf)) (λ _. second)
          λ _.
            ends (store b mr₁) (λ _. lift (env.alloc_n (succ mr.buflen)) >> third)
              λ _.
                ends (lift (env.alloc_n (succ mr.buflen))) (λ _. third)
                  λ _.
                    ends (store b mr₂) (λ _. call env receive >>= fourth)
                      λ _. ends (call env receive) fourth λ r.
                        ends (store b (mr₃ r)) (λ _. lift (check r) >> pure (mr₃ r))
                          λ _. ends (lift (check r)) (λ _. pure (mr₃ r)) (λ _ w _. fit)
      where
        ends :
            {A : Type 0} (m : M A) (k : A → M Request)
            → ((x : A) → Gives (λ _. Unit) (HasObject b) (k x))
            → Gives (λ _. Unit) (HasObject b) (m >>= k)
        ends m k hk = Gives-then (λ _. Unit) (HasObject b) m k (λ _ _. tt) hk

  any_sizes : (sizes : List (Option ℤ)) → AllSizes (λ _. Unit) sizes
  any_sizes [] = tt
  any_sizes (none ∷ sizes) = any_sizes sizes
  any_sizes (some n ∷ sizes) = (tt, any_sizes sizes)

  object_discipline : (env : Env) → Discipline env
  object_discipline env = record {
    Holds = ObjectIs a v;
    Fits = HasObject;
    Size = λ _. Unit;
    arrives = λ log c n e. tt;
    arrivals = λ log c. any_sizes (env.reply log c).arrivals;
    loads = λ b mr w p h ba. p mr (ap (λ t. get_elem? w.heap t) (sym ba) ∙ h);
    stores = λ b mr w fit p. ObjectIs-store b mr fit w p;
    empties = λ k w p. p;
    calls = λ c w p. p;
    alters = λ b mr mr' type obj free fit ba. obj ∙ fit ba;
    posts = λ checks b mr fit w p. ObjectIs-post_data env checks b mr fit w p;
    posted = λ checks b mr fit w p. HasObject-post_data env checks b mr fit w tt;
  }

-- `waitall`, `waitsome`, `testany`, `testall` and `testsome` leave the object of every request as it
-- is, however they end. A receive that one of them completes has no object but the one it had.
pub several_leave_objects :
    (env : Env) (rreqs : List ℕ) (a : ℕ) (v : Value) (w : World)
    → ObjectIs a v w
    → ObjectIs a v (request_waitall env rreqs w).1
      × ObjectIs a v (request_waitsome env rreqs w).1
      × ObjectIs a v (request_testany env rreqs w).1
      × ObjectIs a v (request_testall env rreqs w).1
      × ObjectIs a v (request_testsome env rreqs w).1
unfolding object_discipline
several_leave_objects env rreqs a v w p = (
  Leaves-request_waitall env (object_discipline a v env) rreqs w p,
  Leaves-request_waitsome env (object_discipline a v env) rreqs w p,
  Leaves-request_testany env (object_discipline a v env) rreqs w p,
  Leaves-request_testall env (object_discipline a v env) rreqs w p,
  Leaves-request_testsome env (object_discipline a v env) rreqs w p,
)
