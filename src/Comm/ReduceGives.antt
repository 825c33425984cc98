-- ===== src/Comm/ReduceGives.antt =====
-- mpi_comm.c: `comm_reduce`, `comm_allreduce` and `comm_scan` have a result where the fuel does.
use mpi_ruby.Base.{
  ℕ, suc, ◌<◌, ◌≢◌, refl, ℤ, pos, eq_int, true, false, Option, none, some, if◌then◌else◌,
}
use mpi_ruby.Ruby.{Value, ok, check_fixnum}
use mpi_ruby.Mpi.{Call, Code, IntOp, Reduction, Reply, Env}
use mpi_ruby.Exception.{mpi_exception}
use mpi_ruby.State.{M, pure, ◌>>=◌, ◌>>◌, lift, checked}
use mpi_ruby.State.Keeps.{Keeps, Gives, Keeps-then, Gives-then, Keeps-checked, Gives-last}
use mpi_ruby.Op.Asks.{HasSlot, DumpsUpTo}
use mpi_ruby.Comm.Struct.{CommStruct}
use mpi_ruby.Comm.Reduction.{Operand, array_length, element_count, same_lengths, reduce_with}
use mpi_ruby.Comm.Reduce.{
  Reduced, load_reduced, comm_reduce, load_everywhere, comm_allreduce, comm_scan,
}
use mpi_ruby.Comm.Rounds.{TypeSizes, slot_op}
use mpi_ruby.Comm.ReduceWith.{Gives-reduce_with}

-- The end of a function that has a result.
pub Gives-then_some :
    {A B : Type 0} (m : M A) (f : A → B)
    → Gives (λ _. Unit) (λ out. out ≢ none) (m >>= λ a. pure (some (f a)))
Gives-then_some m f =
    Gives-then (λ _. Unit) (λ out. out ≢ none) m (λ a. pure (some (f a))) (λ w p. tt)
      (λ a w p e. cc)

module _ (env : Env) (size_of : ℕ → ℕ) (bound handle k fuel : ℕ) (mc : CommStruct)
    (sizes : TypeSizes env size_of) (short : DumpsUpTo env bound) (enough : bound < fuel) where
  free : (c : Call) → Keeps (HasSlot k) (checked env c)
  free c = Keeps-checked (HasSlot k) env c (λ c w p. p)

  Harmless-same_lengths : (n : ℤ) → Keeps (HasSlot k) (same_lengths env mc n)
  unfolding same_lengths
  Harmless-same_lengths n =
      let P = HasSlot k in
      let k2 : Reply → Reply → M (Unit {0}) =
        λ hi lo. lift (if eq_int lo.out0 hi.out0 then ok tt else mpi_exception Code.err_arg) in
      let k1 : Reply → M (Unit {0}) =
        λ hi. checked env (Call.allreduce_int IntOp.min n mc.comm) >>= k2 hi in
      Keeps-then P (checked env (Call.allreduce_int IntOp.max n mc.comm)) k1 (free _) λ hi.
        Keeps-then P (checked env (Call.allreduce_int IntOp.min n mc.comm)) (k2 hi) (free _)
          λ lo w p. p

  Gives-load_everywhere :
      (operand : Operand) (out : Option (Unit {0} × ℕ × Reply))
      → out ≢ none
      → Gives (λ _. Unit) (λ out. out ≢ none) (load_everywhere env operand out)
  unfolding load_everywhere
  Gives-load_everywhere operand none q = absurd (q refl)
  Gives-load_everywhere operand (some (_, size, r)) q =
      Gives-then_some (load_reduced env operand size r) (λ x. x)

  pub Gives-comm_allreduce :
      (len longest : ℤ) (operand : Operand)
      → Gives
          (HasSlot k)
          (λ out. out ≢ none)
          (comm_allreduce (suc fuel) env mc len longest operand (slot_op env handle k))
  unfolding comm_allreduce
  Gives-comm_allreduce len longest operand =
      let P = HasSlot k in
      let R : Option Reduced → Type 0 = λ out. out ≢ none in
      let S : Option (Unit {0} × ℕ × Reply) → Type 0 = λ out. out ≢ none in
      let kind = Reduction.allreduce (pos (element_count operand)) in
      let m =
        reduce_with (suc fuel) env (slot_op env handle k) mc kind operand len longest (pure tt) in
      Gives-then P R (same_lengths env mc (array_length operand))
        (λ _. m >>= load_everywhere env operand) (Harmless-same_lengths (array_length operand))
        λ _.
          Gives-last P S R m (load_everywhere env operand)
            (Gives-reduce_with env size_of bound handle k fuel mc sizes short enough kind operand
              len longest (pure tt) (λ P w p. p))
            (Gives-load_everywhere operand)

  pub Gives-comm_scan :
      (len longest : ℤ) (operand : Operand)
      → Gives
          (HasSlot k)
          (λ out. out ≢ none)
          (comm_scan (suc fuel) env mc len longest operand (slot_op env handle k))
  unfolding comm_scan
  Gives-comm_scan len longest operand =
      let P = HasSlot k in
      let R : Option Reduced → Type 0 = λ out. out ≢ none in
      let S : Option (Unit {0} × ℕ × Reply) → Type 0 = λ out. out ≢ none in
      let kind = Reduction.scan (pos (element_count operand)) in
      let m =
        reduce_with (suc fuel) env (slot_op env handle k) mc kind operand len longest (pure tt) in
      Gives-then P R (same_lengths env mc (array_length operand))
        (λ _. m >>= load_everywhere env operand) (Harmless-same_lengths (array_length operand))
        λ _.
          Gives-last P S R m (load_everywhere env operand)
            (Gives-reduce_with env size_of bound handle k fuel mc sizes short enough kind operand
              len longest (pure tt) (λ P w p. p))
            (Gives-load_everywhere operand)

  pub Gives-comm_reduce :
      (len longest : ℤ) (operand : Operand) (rroot : Value)
      → Gives
          (HasSlot k)
          (λ out. out ≢ none)
          (comm_reduce (suc fuel) env mc len longest operand (slot_op env handle k) rroot)
  unfolding comm_reduce
  Gives-comm_reduce len longest operand rroot =
      let P = HasSlot k in
      let R : Option Reduced → Type 0 = λ out. out ≢ none in
      let S : Option (Unit {0} × ℕ × Reply) → Type 0 = λ out. out ≢ none in
      let kind : ℤ → Reduction = λ root. Reduction.reduce (pos (element_count operand)) root in
      let m : ℤ → M (Option (Unit {0} × ℕ × Reply)) = λ root.
        reduce_with (suc fuel) env (slot_op env handle k) mc (kind root) operand len longest
          (pure tt) in
      let result : ℤ → Reply → ℕ → Reply → M Reduced = λ root rank size r.
        elim (eq_int rank.out0 root) [
          | true ↦ load_reduced env operand size r
          | false ↦ pure Reduced.yes
        ] in
      let k5 : ℤ → Reply → Option (Unit {0} × ℕ × Reply) → M (Option Reduced) = λ root rank out.
        elim out [
          | none ↦ pure none
          | some (_, size, r) ↦ result root rank size r >>= λ x. pure (some x)
        ] in
      let k4 : ℤ → Reply → M (Option Reduced) = λ root rank. m root >>= k5 root rank in
      let k3 : ℤ → Reply → M (Option Reduced) =
        λ root rank. same_lengths env mc (array_length operand) >> k4 root rank in
      let k2 : ℤ → M (Option Reduced) = λ root. checked env (Call.comm_rank mc.comm) >>= k3 root in
      let k1 : M (Option Reduced) = lift (env.fix2int rroot) >>= k2 in
      Gives-then P R (lift (check_fixnum rroot)) (λ _. k1) (λ w p. p)
        λ _.
          Gives-then P R (lift (env.fix2int rroot)) k2 (λ w p. p)
            λ root. Gives-then P R (checked env (Call.comm_rank mc.comm)) (k3 root) (free _) λ rank.
              Gives-then P R (same_lengths env mc (array_length operand)) (λ _. k4 root rank)
                (Harmless-same_lengths (array_length operand))
                λ _.
                  Gives-last P S R (m root) (k5 root rank)
                    (Gives-reduce_with env size_of bound handle k fuel mc sizes short enough
                      (kind root) operand len longest (pure tt) (λ P w p. p))
                    λ out.
                      elim out as (λ out. out ≢ none → Gives (λ _. Unit) R (k5 root rank out)) [
                        | none ↦ λ q. absurd (q refl)
                        | some (_, size, r) ↦
                            λ q. Gives-then_some (result root rank size r) (λ x. x)
                      ]
