-- ===== src/Request/Polling.antt =====
-- mpi_request.c: the polling thread keeps an invariant.
use mpi_ruby.Base.{ℕ, zero, suc, ◌+◌, refl, Bool, true, false, Option, none, some, get_elem?, set}
use mpi_ruby.Ruby.{Outcome, ok, fault, Fault, is_nonzero}
use mpi_ruby.Mpi.{Call, Reply, Env}
use mpi_ruby.Exception.{mpi_exception}
use mpi_ruby.State.{Request, Stage, Entry, World, M, pure, ◌>>=◌, ◌>>◌, lift, call, store}
use mpi_ruby.Request.Lifecycle.{with_size, post_data}
use mpi_ruby.Request.Poll.{entry_at, poll_request, poll_cell, poll_from, request_thread_round}
use mpi_ruby.Request.Drain.{Postable-with_size}
use mpi_ruby.Request.Discipline.{
  Discipline, Leaves, Leaves-loaded, Leaves-stored, Leaves-answered, Leaves-lift,
}
use mpi_ruby.Request.Parts.{Leaves-then, Leaves-post_data}
use mpi_ruby.Request.TidyWait.{type-with_size, obj-with_size}

-- The part of a poll behind the test of the flag, and what is done for a cell.
abbrev pub moved : Env → ℕ → ℕ → Request → Reply → Bool → M (Unit {0})
moved env i a mr₁ r c = elim c [
  | false ↦ pure tt
  | true ↦ do
    let mr₂ = record mr₁ { peer = r.status.source }
    store a mr₂
    mr₃ ← post_data env false a mr₂
    store a (record mr₃ { stage = Stage.tx_data })
    λ w. (ok tt, record w { rlist = set w.rlist i Entry.empty })
]

abbrev pub found : Option Entry → World → Outcome Entry × World
found o w = elim o [ none ↦ (fault Fault.out_of_bounds, w) | some e ↦ (ok e, w) ]

abbrev pub at_cell : Env → ℕ → Entry → M (Unit {0})
at_cell env i e = elim e [
  | Entry.empty ↦ pure tt
  | Entry.entry a ↦ poll_request env i a
  | Entry.unwritten ↦ lift (fault Fault.indeterminate)
]

module _ (env : Env) (d : Discipline env) where
  Leaves-moved :
      (i a : ℕ) (mr₁ : Request) (r : Reply) (c : Bool)
      → d.Fits a mr₁
      → Leaves env d (moved env i a mr₁ r c)
  Leaves-moved i a mr₁ r false kind = λ w p. p
  Leaves-moved i a mr₁ r true kind =
      let mr₂ : Request = record mr₁ { peer = r.status.source } in
      let kind₂ : d.Fits a mr₂ = d.alters a mr₁ mr₂ refl refl (λ e. e) kind in
      let emptied : M (Unit {0}) = λ w. (ok tt, record w { rlist = set w.rlist i Entry.empty }) in
      let last : Request → M (Unit {0}) =
        λ mr₃. store a (record mr₃ { stage = Stage.tx_data }) >> emptied in
      Leaves-stored env d a mr₂ (post_data env false a mr₂ >>= last) kind₂ (
        Leaves-post_data env d false a mr₂ last kind₂ λ mr₃ kind₃.
          Leaves-stored env d a (record mr₃ { stage = Stage.tx_data }) emptied
            (d.alters a mr₃ (record mr₃ { stage = Stage.tx_data }) refl refl (λ e. e) kind₃)
            (λ w p. d.empties i w p))

  pub Leaves-poll_request : (i a : ℕ) → Leaves env d (poll_request env i a)
  unfolding poll_request
  Leaves-poll_request i a =
      let stored : Request → Reply → M (Unit {0}) = λ mr r.
        store a (with_size r mr)
        >> (lift (mpi_exception r.rv) >> moved env i a (with_size r mr) r (is_nonzero r.out0)) in
      Leaves-loaded env d a (λ mr. call env (Call.test mr.handle) >>= stored mr)
        λ mr kind. Leaves-answered env d (Call.test mr.handle) (stored mr) λ log.
          let r = env.reply log (Call.test mr.handle) in
          let kind' : d.Fits a (with_size r mr) =
            d.alters a mr (with_size r mr) (type-with_size r mr) (obj-with_size r mr)
              (Postable-with_size d.Size r mr (d.arrives log (Call.test mr.handle))) kind in
          Leaves-stored env d a (with_size r mr)
            (lift (mpi_exception r.rv) >> moved env i a (with_size r mr) r (is_nonzero r.out0))
            kind'
            (Leaves-lift env d (mpi_exception r.rv)
              (λ _. moved env i a (with_size r mr) r (is_nonzero r.out0))
              λ _. Leaves-moved i a (with_size r mr) r (is_nonzero r.out0) kind')

  pub Leaves-poll_cell : (i : ℕ) → Leaves env d (poll_cell env i)
  unfolding poll_cell
  Leaves-poll_cell i = Leaves-then env d (entry_at i) (at_cell env i) (λ w p. entry_at-same w p) go
    where
      go : (e : Entry) → Leaves env d (at_cell env i e)
      go Entry.empty = λ w p. p
      go (Entry.entry a) = Leaves-poll_request i a
      go Entry.unwritten = λ w p. p

      entry_at-same : (w : World) → d.Holds w → d.Holds (entry_at i w).1
      entry_at-same w p = looked (get_elem? w.rlist i)
        where
          looked : (o : Option Entry) → d.Holds (found o w).1
          looked none = p
          looked (some e) = p

  Leaves-poll_from : (n i : ℕ) → Leaves env d (poll_from env n i)
  unfolding poll_from
  Leaves-poll_from zero i = λ w p. p
  Leaves-poll_from (suc n) i =
      Leaves-then env d (poll_cell env i) (λ _. poll_from env n (i + 1)) (Leaves-poll_cell i)
        (λ _. Leaves-poll_from n (i + 1))

  pub Leaves-request_thread_round : Leaves env d (request_thread_round env)
  unfolding request_thread_round
  Leaves-request_thread_round w p = Leaves-poll_from w.capacity 0 w p
