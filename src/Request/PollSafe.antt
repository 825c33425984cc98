-- ===== src/Request/PollSafe.antt =====
-- mpi_request.c: where the requests are in order, the polling thread does nothing undefined.
use mpi_ruby.Base.{
  ℕ, zero, suc, ◌+◌, ◌<◌, ◌≡◌, refl, sym, subst, ◌∙◌, Bool, true, false, List, [], ◌∷◌, Option,
  none, some, length, get_elem?, set, ◌⊎◌, inl, inr, Option-cases, arith,
}
use mpi_ruby.Ruby.{ok, raised, is_nonzero, mpi_error}
use mpi_ruby.Mpi.{Call, Code, Reply, Env}
use mpi_ruby.Exception.{mpi_exception, message}
use mpi_ruby.State.{Request, ReqType, Stage, Entry, World, M, ◌>>=◌, ◌>>◌, lift, call, load, store}
use mpi_ruby.State.Keeps.{Unfaulted, Safe, Safe-bind, Safe-then, Keeps-load, looked}
use mpi_ruby.Request.Lifecycle.{with_size, post_data}
use mpi_ruby.Request.Poll.{poll_request, poll_cell, poll_from, request_thread_round}
use mpi_ruby.Request.Drain.{Postable-with_size}
use mpi_ruby.Request.Refines.{IsWritten}
use mpi_ruby.Request.Discipline.{Discipline, Gives-load}
use mpi_ruby.Request.Tidy.{HasMemory, IsSize, memory_for, Kind, Tidy}
use mpi_ruby.Request.TidyPost.{tidy}
use mpi_ruby.Request.Posting.{capacity-post_data, post_data-stored}
use mpi_ruby.Request.TidyWait.{type-with_size}
use mpi_ruby.Request.Polling.{moved, found, at_cell, Leaves-poll_cell}

Unfaulted-mpi_exception : (c : Code) → Unfaulted (mpi_exception c)
unfolding mpi_exception
Unfaulted-mpi_exception c = elim (Option-cases (message c)) [
  | inl e ↦
      subst (λ o. Unfaulted (elim o [ none ↦ ok tt | some m ↦ raised (mpi_error m) ])) (sym e) tt
  | inr (m, e) ↦
      subst (λ o. Unfaulted (elim o [ none ↦ ok tt | some m ↦ raised (mpi_error m) ])) (sym e) tt
]

module _ (env : Env) (memory : HasMemory env) (types : ℕ → ReqType) (room : ℕ) where
  module _ (a : ℕ) (receive : types a ≡ ReqType.receive) where
    -- The polled struct is live.
    abbrev order : Discipline env
    order = tidy env memory types room (a ∷ [])

    abbrev Ready : World → Type 0
    Ready = Tidy types room (a ∷ [])

    Safe-load : Safe Ready (load a)
    Safe-load w (_, _, _, _, _, ((mr, h), _)) = subst (λ o. Unfaulted (looked o w).0) (sym h) tt

    Safe-post_data : (mr : Request) → Kind types a mr → Safe Ready (post_data env false a mr)
    Safe-post_data mr kind w p =
        subst (λ r. Unfaulted r.0)
          (sym (
            post_data-stored env false a mr w (memory_for env mr.buflen memory (kind.1 receive).1)
              (kind.1 receive).0))
          tt

    Safe-answered :
        {B : Type 0} (c : Call) (f : Reply → M B)
        → ((log : List Call) → Safe Ready (f (env.reply log c)))
        → Safe Ready (call env c >>= f)
    Safe-answered c f hf w p = hf w.log (record w { log = c ∷ w.log }) (order.calls c w p)

    Safe-moved :
        (i : ℕ) (mr₁ : Request) (r : Reply) (c : Bool)
        → Kind types a mr₁
        → Safe Ready (moved env i a mr₁ r c)
    Safe-moved i mr₁ r false kind = λ w p. tt
    Safe-moved i mr₁ r true kind =
        let mr₂ : Request = record mr₁ { peer = r.status.source } in
        let emptied : M (Unit {0}) = λ w. (ok tt, record w { rlist = set w.rlist i Entry.empty }) in
        let last : Request → M (Unit {0}) =
          λ mr₃. store a (record mr₃ { stage = Stage.tx_data }) >> emptied in
        Safe-then Ready (store a mr₂) (λ _. post_data env false a mr₂ >>= last)
          (λ w p. order.stores a mr₂ w kind p) (λ w p. tt)
          λ _.
            Safe-then Ready (post_data env false a mr₂) last (order.posts false a mr₂ kind)
              (Safe-post_data mr₂ kind) (λ mr₃ w p. tt)

    Safe-poll_request : (i : ℕ) → Safe Ready (poll_request env i a)
    unfolding poll_request
    Safe-poll_request i =
        let test : Request → Reply → M (Unit {0}) = λ mr r.
          lift (mpi_exception r.rv) >> moved env i a (with_size r mr) r (is_nonzero r.out0) in
        let stored : Request → Reply → M (Unit {0}) =
          λ mr r. store a (with_size r mr) >> test mr r in
        Safe-bind Ready (Kind types a) (load a) (λ mr. call env (Call.test mr.handle) >>= stored mr)
          (Keeps-load Ready a) (Gives-load env order a) Safe-load
          λ mr kind. Safe-answered (Call.test mr.handle) (stored mr) λ log.
            let r = env.reply log (Call.test mr.handle) in
            let kind' : Kind types a (with_size r mr) = (
              type-with_size r mr ∙ kind.0,
              λ e. Postable-with_size IsSize r mr (memory.1 log (Call.test mr.handle)) (kind.1 e),
            ) in
            Safe-then Ready (store a (with_size r mr)) (λ _. test mr r)
              (λ w p. order.stores a (with_size r mr) w kind' p) (λ w p. tt)
              λ _.
                Safe-then Ready (lift (mpi_exception r.rv))
                  (λ _. moved env i a (with_size r mr) r (is_nonzero r.out0)) (λ w p. p)
                  (λ w p. Unfaulted-mpi_exception r.rv)
                  λ _. Safe-moved i (with_size r mr) r (is_nonzero r.out0) kind'

  -- The entry of a cell of the list: the list is written.
  cell-cases :
      (xs : List Entry) (i : ℕ)
      → IsWritten xs
      → i < length xs
      → (get_elem? xs i ≡ some Entry.empty) ⊎ ((a : ℕ) × (get_elem? xs i ≡ some (Entry.entry a)))
  cell-cases [] i h lt = absurd (omega (arith, lt))
  cell-cases (Entry.unwritten ∷ xs) i h lt = absurd h
  cell-cases (Entry.empty ∷ xs) zero h lt = inl refl
  cell-cases (Entry.entry a ∷ xs) zero h lt = inr (a, refl)
  cell-cases (Entry.empty ∷ xs) (suc i) h lt = cell-cases xs i h (omega (arith, lt))
  cell-cases (Entry.entry a ∷ xs) (suc i) h lt = cell-cases xs i h (omega (arith, lt))

  Safe-poll_cell :
      (i : ℕ) (w : World)
      → Tidy types room [] w
      → i < length w.rlist
      → Unfaulted (poll_cell env i w).0
  unfolding poll_cell
  Safe-poll_cell i w (kinds, listed, written, full, fits, live) lt =
      elim (cell-cases w.rlist i written lt) [
        | inl e ↦ subst (λ o. Unfaulted (cell o w).0) (sym e) tt
        | inr (a, e) ↦
            let (receive, la) = listed i a e in
            subst (λ o. Unfaulted (cell o w).0) (sym e)
              (Safe-poll_request a receive i w (kinds, listed, written, full, fits, (la, tt)))
      ]
    where
      cell : Option Entry → M (Unit {0})
      cell o = (λ w. found o w) >>= at_cell env i

  -- The order of the requests, and the number of cells.
  abbrev sized : ℕ → Discipline env
  sized c =
      let d = tidy env memory types room [] in
      record {
        Holds = λ w. Tidy types room [] w × (w.capacity ≡ c);
        Fits = Kind types;
        Size = IsSize;
        arrives = d.arrives;
        arrivals = d.arrivals;
        loads = λ b mr w p h. d.loads b mr w p.0 h;
        stores = λ b mr w kind p. (d.stores b mr w kind p.0, p.1);
        empties = λ k w p. (d.empties k w p.0, p.1);
        calls = λ k w p. (d.calls k w p.0, p.1);
        alters = d.alters;
        posts = λ checks b mr kind w p.
            (d.posts checks b mr kind w p.0, capacity-post_data env checks b mr w ∙ p.1);
        posted = λ checks b mr kind w p. d.posted checks b mr kind w p.0;
      }

  Safe-poll_from : (c n i : ℕ) → i + n ≡ c → Safe (sized c).Holds (poll_from env n i)
  unfolding poll_from
  Safe-poll_from c zero i e = λ w p. tt
  Safe-poll_from c (suc n) i e =
      Safe-then (sized c).Holds (poll_cell env i) (λ _. poll_from env n (i + 1))
        (Leaves-poll_cell env (sized c) i)
        (λ w p. Safe-poll_cell i w p.0 (omega (arith, p.1, p.0.3, e)))
        (λ _. Safe-poll_from c n (i + 1) (omega (arith, e)))

  pub Safe-request_thread_round : Safe (Tidy types room []) (request_thread_round env)
  unfolding request_thread_round
  Safe-request_thread_round w p = Safe-poll_from w.capacity w.capacity 0 (omega arith) w (p, refl)
