-- ===== src/Request/Discipline.antt =====
-- mpi_request.c: invariants that each method keeps, because of what it does to one struct at a time,
-- and to the list.
use mpi_ruby.Base.{
  ℕ, drop, get_or, ◌≡◌, refl, ℤ, Bool, true, false, List, [], ◌∷◌, Option, none, some, get_elem?,
  set, ◌==◌, arith,
}
use mpi_ruby.Ruby.{Bytes, Outcome, ok}
use mpi_ruby.Exception.{mpi_exception}
use mpi_ruby.Mpi.{Call, Reply, Env}
use mpi_ruby.State.{Request, Entry, World, M, pure, ◌>>=◌, ◌>>◌, lift, call, load, store}
use mpi_ruby.State.Keeps.{Keeps, Gives, Yields, looked, Keeps-load, Keeps-bind, Keeps-then}
use mpi_ruby.Request.Memory.{free_buf}
use mpi_ruby.Request.Lifecycle.{post_data}
use mpi_ruby.Request.Many.{
  load_each, deliver, with_arrival, call_many, set_null, null_if, null_at, request_at, null_each,
}

-- What the numbers that arrive satisfy.
abbrev pub AllSizes : (ℤ → Type 0) → List (Option ℤ) → Type 0
AllSizes Size [] = Unit
AllSizes Size (none ∷ rest) = AllSizes Size rest
AllSizes Size (some n ∷ rest) = Size n × AllSizes Size rest

abbrev pub SizeOrNone : (ℤ → Type 0) → Option ℤ → Type 0
SizeOrNone Size none = Unit
SizeOrNone Size (some n) = Size n

-- The second receive can be posted: the buffer may be freed, and the length is a size.
abbrev pub Postable : (ℤ → Type 0) → Request → Type 0
Postable Size mr = (free_buf mr.buf ≡ ok tt) × Size mr.buflen

-- What may be asked of a state, `Holds`, with what that makes of the struct at an address, `Fits`.
-- Every store of a struct that fits keeps it, and so do calls of MPI and the emptying of a cell.
pub record Discipline (env : Env) : Type 1 where
  pub Holds : World → Type 0
  pub Fits : ℕ → Request → Type 0
  -- what may be asked of the lengths that arrive
  pub Size : ℤ → Type 0
  pub arrives : (log : List Call) (c : Call) (n : ℤ) → (env.reply log c).arrived ≡ some n → Size n
  pub arrivals : (log : List Call) (c : Call) → AllSizes Size (env.reply log c).arrivals
  pub loads :
      (b : ℕ) (mr : Request) (w : World) → Holds w → get_elem? w.heap b ≡ some (some mr) → Fits b mr
  pub stores :
      (b : ℕ) (mr : Request) (w : World)
      → Fits b mr
      → Holds w
      → Holds (record w { heap = set w.heap b (some mr) })
  pub empties :
      (k : ℕ) (w : World) → Holds w → Holds (record w { rlist = set w.rlist k Entry.empty })
  pub calls : (c : Call) (w : World) → Holds w → Holds (record w { log = c ∷ w.log })
  -- Neither the type nor the object changes, and what can be posted stays so.
  pub alters :
      (b : ℕ) (mr mr' : Request)
      → mr'.type ≡ mr.type
      → mr'.obj ≡ mr.obj
      → (Postable Size mr → Postable Size mr')
      → Fits b mr
      → Fits b mr'
  -- `post_data` frees the buffer before it has the next one.
  pub posts :
      (checks : Bool) (b : ℕ) (mr : Request)
      → Fits b mr
      → (w : World) → Holds w
      → Holds (post_data env checks b mr w).1
  pub posted :
      (checks : Bool) (b : ℕ) (mr : Request)
      → Fits b mr
      → (w : World) → Holds w
      → Yields (Fits b) (post_data env checks b mr w).0

free_buf-with_arrival :
    (env : Env) (size : Option ℤ) (payload : Option Bytes) (mr : Request)
    → free_buf mr.buf ≡ ok tt
    → free_buf (with_arrival env size payload mr).buf ≡ ok tt
free_buf-with_arrival env size payload mr free = ground (arith, free)

Postable-with_arrival :
    (env : Env) (Size : ℤ → Type 0) (size : Option ℤ) (payload : Option Bytes) (mr : Request)
    → SizeOrNone Size size
    → Postable Size mr
    → Postable Size (with_arrival env size payload mr)
Postable-with_arrival env Size none payload mr s (free, len) =
    (free_buf-with_arrival env none payload mr free, len)
Postable-with_arrival env Size (some n) payload mr s (free, len) =
    (free_buf-with_arrival env (some n) payload mr free, s)

AllSizes-head :
    (Size : ℤ → Type 0) (sizes : List (Option ℤ))
    → AllSizes Size sizes
    → SizeOrNone Size (get_or sizes 0 none)
AllSizes-head Size [] h = tt
AllSizes-head Size (none ∷ rest) h = tt
AllSizes-head Size (some n ∷ rest) h = h.0

AllSizes-drop :
    (Size : ℤ → Type 0) (sizes : List (Option ℤ))
    → AllSizes Size sizes
    → AllSizes Size (drop 1 sizes)
AllSizes-drop Size [] h = tt
AllSizes-drop Size (none ∷ rest) h = h
AllSizes-drop Size (some n ∷ rest) h = h.1

module _ (env : Env) (d : Discipline env) where
  -- The invariant holds afterwards if it does before, however the function ends.
  abbrev pub Leaves : {A : Type 0} → M A → Type 0
  Leaves m = Keeps d.Holds m

  pub Gives-load : (b : ℕ) → Gives d.Holds (d.Fits b) (load b)
  Gives-load b w p = go (get_elem? w.heap b) refl
    where
      go : (o : Option (Option Request)) → get_elem? w.heap b ≡ o → Yields (d.Fits b) (looked o w).0
      go none e = tt
      go (some none) e = tt
      go (some (some mr)) e = d.loads b mr w p e

  pub Leaves-store : (b : ℕ) (mr : Request) → d.Fits b mr → Leaves (store b mr)
  Leaves-store b mr fit w p = d.stores b mr w fit p

  -- A block that starts with a load, and one with a store.
  pub Leaves-loaded :
      {B : Type 0} (b : ℕ) (f : Request → M B)
      → ((mr : Request) → d.Fits b mr → Leaves (f mr))
      → Leaves (load b >>= f)
  Leaves-loaded b f hf =
      Keeps-bind (d.Holds) (d.Fits b) (load b) f (Keeps-load d.Holds b) (Gives-load b) hf

  pub Leaves-stored :
      {B : Type 0} (b : ℕ) (mr : Request) (m : M B)
      → d.Fits b mr
      → Leaves m
      → Leaves (store b mr >> m)
  Leaves-stored b mr m fit hm =
      Keeps-then (d.Holds) (store b mr) (λ _. m) (Leaves-store b mr fit) (λ _. hm)

  pub Leaves-load_each : (bs : List ℕ) → Leaves (load_each bs)
  unfolding load_each
  Leaves-load_each [] = λ w p. p
  Leaves-load_each (b ∷ bs) =
      let rest : Request → M (List Request) = λ mr. load_each bs >>= λ mrs. pure (mr ∷ mrs) in
      Leaves-loaded b rest (λ mr fit.
        Keeps-then (d.Holds) (load_each bs) (λ mrs. pure (mr ∷ mrs)) (Leaves-load_each bs)
          (λ mrs w p. p))

  Leaves-deliver :
      (bs : List ℕ) (sizes : List (Option ℤ)) (payloads : List (Option Bytes))
      → AllSizes d.Size sizes
      → Leaves (deliver env bs sizes payloads)
  unfolding deliver
  Leaves-deliver [] sizes payloads sized = λ w p. p
  Leaves-deliver (b ∷ bs) sizes payloads sized =
      let rest = deliver env bs (drop 1 sizes) (drop 1 payloads) in
      let new : Request → Request =
        λ mr. with_arrival env (get_or sizes 0 none) (get_or payloads 0 none) mr in
      Leaves-loaded b (λ mr. store b (new mr) >> rest)
        (λ mr fit.
          Leaves-stored b (new mr) rest
            (d.alters b mr (new mr) refl refl
              (Postable-with_arrival env d.Size (get_or sizes 0 none) (get_or payloads 0 none) mr
                (AllSizes-head d.Size sizes sized))
              fit)
            (Leaves-deliver bs (drop 1 sizes) (drop 1 payloads) (AllSizes-drop d.Size sizes sized)))

  -- A call of MPI, and a result that is passed on.
  pub Leaves-call :
      {B : Type 0} (c : Call) (f : Reply → M B)
      → ((r : Reply) → Leaves (f r))
      → Leaves (call env c >>= f)
  Leaves-call c f hf = Keeps-then (d.Holds) (call env c) f (d.calls c) hf

  -- The same where it matters that it is MPI that answers.
  pub Leaves-answered :
      {B : Type 0} (c : Call) (f : Reply → M B)
      → ((log : List Call) → Leaves (f (env.reply log c)))
      → Leaves (call env c >>= f)
  Leaves-answered c f hf w p = hf w.log (record w { log = c ∷ w.log }) (d.calls c w p)

  pub Leaves-lift :
      {A B : Type 0} (o : Outcome A) (f : A → M B)
      → ((x : A) → Leaves (f x))
      → Leaves (lift o >>= f)
  Leaves-lift o f hf = Keeps-then (d.Holds) (lift o) f (λ w p. p) hf

  pub Leaves-call_many : (c : Call) (bs : List ℕ) → Leaves (call_many env c bs)
  unfolding call_many
  Leaves-call_many c bs =
      let last : Reply → M Reply = λ r. lift (mpi_exception r.rv) >> pure r in
      Leaves-answered c (λ r. deliver env bs r.arrivals r.payloads >> last r)
        (λ log.
          let r = env.reply log c in
          Keeps-then (d.Holds) (deliver env bs r.arrivals r.payloads) (λ _. last r)
            (Leaves-deliver bs r.arrivals r.payloads (d.arrivals log c))
            (λ _. Leaves-lift (mpi_exception r.rv) (λ _. pure r) (λ _ w p. p)))

  Leaves-set_null : (b : ℕ) → Leaves (set_null env b)
  unfolding set_null
  Leaves-set_null b =
      Leaves-loaded b (λ mr. store b (record mr { handle = env.request_null }))
        (λ mr fit.
          Leaves-store b (record mr { handle = env.request_null })
            (d.alters b mr (record mr { handle = env.request_null }) refl refl (λ e. e) fit))

  Leaves-null_if : (req b : ℕ) → Leaves (null_if env req b)
  unfolding null_if
  Leaves-null_if req b = go (req == env.request_null)
    where
      go : (c : Bool) → Leaves (elim c [ true ↦ set_null env b | false ↦ pure tt ])
      go true = Leaves-set_null b
      go false = λ w p. p

  pub Leaves-null_each : (bs reqs : List ℕ) → Leaves (null_each env bs reqs)
  unfolding null_each
  Leaves-null_each [] reqs = λ w p. p
  Leaves-null_each (b ∷ bs) [] = λ w p. p
  Leaves-null_each (b ∷ bs) (req ∷ reqs) =
      Keeps-then (d.Holds) (null_if env req b) (λ _. null_each env bs reqs) (Leaves-null_if req b)
        (λ _. Leaves-null_each bs reqs)

  pub Leaves-null_at : (req : ℕ) (bs : List ℕ) (i : ℤ) → Leaves (null_at env req bs i)
  unfolding null_at
  Leaves-null_at req bs i = go (req == env.request_null)
    where
      go :
          (c : Bool)
          → Leaves (elim c [
            | true ↦ (lift (request_at env bs i) >>= λ b. set_null env b)
            | false ↦ pure tt
          ])
      go true = Leaves-lift (request_at env bs i) (λ b. set_null env b) (λ b. Leaves-set_null b)
      go false = λ w p. p
