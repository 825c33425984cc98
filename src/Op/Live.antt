-- ===== src/Op/Live.antt =====
-- mpi_op.c: operations that live at once have slots of their own.
use mpi_ruby.Base.{
  ℕ, zero, suc, ◌≡◌, ◌≢◌, ◌∙◌, sym, refl, pos, false, List, [], ◌∷◌, some, get_elem?, set, arith,
  ◌⊎◌, inl, inr, Option-cases, get_elem?-set_over,
}
use mpi_ruby.Ruby.{
  Value, Outcome, ok, raised, fault, Fault, RubyError, truthy, int_of_bool, mpi_error,
}
use mpi_ruby.Mpi.{Call, Env}
use mpi_ruby.Exception.{mpi_exception}
use mpi_ruby.Exception.Laws.{mpi_exception_intern}
use mpi_ruby.State.{OpSlot, World}
use mpi_ruby.Op.{MpiOp, taken_by, op_create, op_free, finish_create}
use mpi_ruby.Op.Table.{op_register_lem}
use mpi_ruby.Op.Events.{
  Event, remove, with_created, step, run, NotAmong, Owns, Owns-set, NotAmong-unassigned,
}

Outcome-cases {ℓ} :
    {A : Type ℓ} (r : Outcome A)
    → ((a : A) × (r ≡ ok a)) ⊎ ((e : RubyError) × (r ≡ raised e)) ⊎ ((f : Fault) × (r ≡ fault f))
Outcome-cases (ok a) = inl (a, refl)
Outcome-cases (raised e) = inr (inl (e, refl))
Outcome-cases (fault f) = inr (inr (f, refl))

-- How `op_create` changes the table: not at all, without a result; or in a slot that was not
-- assigned, which is the index of its result if there is one.
op_create_table :
    (env : Env) (proc rcommute : Value) (w : World)
    → let (r, w') = op_create env proc rcommute w in
      ((live : List MpiOp) → with_created r live ≡ live) × (w'.op_table ≡ w.op_table)
      ⊎ ((j : ℕ) × (((s : OpSlot) × (get_elem? w.op_table j ≡ some s) × (s.assigned ≡ false))
            × (w'.op_table ≡ set w.op_table j (taken_by proc))
            × (((live : List MpiOp) → with_created r live ≡ live)
                ⊎ ((o : MpiOp) × (r ≡ ok (some o)) × (o.idx ≡ pos j)))))
unfolding op_create finish_create
op_create_table env proc rcommute w = elim (op_register_lem proc w) [
  | inl (full, e) ↦
      (let f : op_create env proc rcommute w ≡ (raised (mpi_error "Internal MPI error"), w) =
          ground (arith, e, mpi_exception_intern) in
        simp f (inl (λ live. refl, refl)))
  | inr (j, e, free, below, count) ↦
      (let c = Call.op_create (pos j) (int_of_bool (truthy rcommute)) in
        let w' : World = record w {
          log = c ∷ w.log;
          op_table = set w.op_table j (taken_by proc);
        } in
        elim (Outcome-cases (mpi_exception (env.reply w.log c).rv)) [
          | inl (_, h) ↦
              (let o : MpiOp = record { op = (env.reply w.log c).handle; idx = pos j } in
                let f : op_create env proc rcommute w ≡ (ok (some o), w') = ground (arith, e, h) in
                simp f (inr (j, (free, refl, inr (o, refl, refl)))))
          | inr (inl (x, h)) ↦
              (let f : op_create env proc rcommute w ≡ (raised x, w') = ground (arith, e, h) in
                simp f (inr (j, (free, refl, inl (λ live. refl)))))
          | inr (inr (x, h)) ↦
              (let f : op_create env proc rcommute w ≡ (fault x, w') = ground (arith, e, h) in
                simp f (inr (j, (free, refl, inl (λ live. refl)))))
        ])
]

-- The finaliser of an operation that owns its slot clears `assigned` there, and does no more to the
-- table.
op_free_table :
    (env : Env) (o : MpiOp) (i : ℕ) (s : OpSlot) (w : World)
    → o.idx ≡ pos i
    → get_elem? w.op_table i ≡ some s
    → (op_free env o w).1.op_table ≡ set w.op_table i (record s { assigned = false })
unfolding op_free
op_free_table env o i s w e g = ground arith

remove-NotAmong : (live : List MpiOp) (k i : ℕ) → NotAmong i live → NotAmong i (remove k live)
remove-NotAmong [] k i n = tt
remove-NotAmong (o ∷ live) zero i (ne, n) = n
remove-NotAmong (o ∷ live) (suc k) i (ne, n) = (ne, remove-NotAmong live k i n)

remove-Owns : (live : List MpiOp) (t : List OpSlot) (k : ℕ) → Owns live t → Owns (remove k live) t
remove-Owns [] t k h = tt
remove-Owns (o ∷ live) t zero (_, h) = h
remove-Owns (o ∷ live) t (suc k) ((i, e, g, n), h) =
    ((i, e, g, remove-NotAmong live k i n), remove-Owns live t k h)

NotAmong-get :
    (live : List MpiOp) (i k : ℕ) (o : MpiOp)
    → NotAmong i live
    → get_elem? live k ≡ some o
    → o.idx ≢ pos i
NotAmong-get [] i k o n g = cc
NotAmong-get (o' ∷ live) i zero o (ne, n) g = ground (arith, ne)
NotAmong-get (o' ∷ live) i (suc k) o (ne, n) g = NotAmong-get live i k o n g

-- What the operation at a place owns, none of the others does.
removed_NotAmong :
    (live : List MpiOp) (t : List OpSlot) (k : ℕ) (o : MpiOp)
    → Owns live t
    → get_elem? live k ≡ some o
    → (i : ℕ) × (o.idx ≡ pos i)
      × ((s : OpSlot) × (get_elem? t i ≡ some s))
      × NotAmong i (remove k live)
removed_NotAmong [] t k o h g = cc
removed_NotAmong (o' ∷ live) t zero o ((i, e, (s, gs, a), n), h) g = (i, ground arith, (s, gs), n)
removed_NotAmong (o' ∷ live) t (suc k) o ((i', e', (s', gs', a'), n'), h) g =
    let (i, e, gs, n) = removed_NotAmong live t k o h g in
    (i, e, gs, (λ same. NotAmong-get live i' k o n' g (e ∙ sym same ∙ e'), n))

Owns-step :
    (env : Env) (e : Event) (live : List MpiOp) (w : World)
    → Owns live w.op_table
    → let (live', w') = step env e (live, w) in Owns live' w'.op_table
unfolding step
Owns-step env (Event.create proc rcommute) live w h = elim (op_create_table env proc rcommute w) [
  | inl (same, table) ↦ simp (same live) (simp table h)
  | inr (j, ((s, g, f), table, inl same)) ↦ simp (same live) (
      simp table (
        Owns-set live w.op_table j (taken_by proc) h
          (NotAmong-unassigned live w.op_table j s h g f)))
  | inr (j, ((s, g, f), table, inr (o, r, idx))) ↦
      (let n = NotAmong-unassigned live w.op_table j s h g f in
        simp r (
          simp table (
            (j, idx, (taken_by proc, get_elem?-set_over w.op_table j (taken_by proc) g, refl), n),
            Owns-set live w.op_table j (taken_by proc) h n,
          )))
]
Owns-step env (Event.finalise k) live w h = elim (Option-cases (get_elem? live k)) [
  | inl there ↦
      (let f : step env (Event.finalise k) (live, w) ≡ (live, w) = ground (arith, there) in
        simp f h)
  | inr (o, there) ↦
      (let (i, idx, (s, g), n) = removed_NotAmong live w.op_table k o h there in
        let table = op_free_table env o i s w idx g in
        let f : step env (Event.finalise k) (live, w) ≡ (remove k live, (op_free env o w).1) =
          ground (arith, there) in
        simp f (
          simp table (
            Owns-set (remove k live) w.op_table i (record s { assigned = false })
              (remove-Owns live w.op_table k h) n)))
]

Owns-run :
    (env : Env) (es : List Event) (live : List MpiOp) (w : World)
    → Owns live w.op_table
    → let (live', w') = run env es (live, w) in Owns live' w'.op_table
unfolding run
Owns-run env [] live w h = h
Owns-run env (e ∷ es) live w h =
    Owns-run env es (step env e (live, w)).0 (step env e (live, w)).1 (Owns-step env e live w h)

-- After any sequence of `MPI::Op.create` and of finalisers, whatever MPI answers, from a state in
-- which no operation lives: each operation that lives has an assigned slot of the table, and no two
-- have the same slot, so that none runs the procedure of another.
pub run-Owns :
    (env : Env) (es : List Event) (w : World)
    → let (live, w') = run env es ([], w) in Owns live w'.op_table
run-Owns env es w = Owns-run env es [] w tt
