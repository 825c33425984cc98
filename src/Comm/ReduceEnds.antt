-- ===== src/Comm/ReduceEnds.antt =====
-- mpi_comm.c: `comm_reduce`, `comm_allreduce`, `comm_scan` and `comm_reduce_scatter` end.
use mpi_ruby.Base.{
  get_elem?, ℕ, suc, ◌+◌, ◌*◌, ◌<◌, ◌≡◌, ◌≢◌, refl, ℤ, pos, pos_part, eq_int, Bool, true, false,
  List, [], ◌∷◌, Option, none, some, length, arith, if◌then◌else◌, is_positive,
}
use mpi_ruby.Ruby.{Value, Outcome, ok, raised, fault, int_of_bool, is_nonzero, rb_ary_entry}
use mpi_ruby.Mpi.{Call, Code, IntOp, Reduction, Reply, Env}
use mpi_ruby.Exception.{mpi_exception}
use mpi_ruby.State.{World, OpSlot, M, pure, ◌>>=◌, ◌>>◌, lift, checked}
use mpi_ruby.State.Keeps.{Keeps, Gives, Yields, Keeps-then, Gives-then, Keeps-checked, Gives-last}
use mpi_ruby.Op.Asks.{HasSlot, DumpsUpTo}
use mpi_ruby.Comm.Struct.{CommStruct}
use mpi_ruby.Comm.Args.{int_array}
use mpi_ruby.Comm.Reduction.{Operand, reduce_with, load_results, received_in}
use mpi_ruby.Comm.Reduce.{
  Reduced, comm_reduce, comm_allreduce, comm_scan, sum_int, counts_fit, load_share,
  comm_reduce_scatter,
}
use mpi_ruby.Comm.Rounds.{TypeSizes, slot_op}
use mpi_ruby.Comm.ReduceWith.{Gives-reduce_with}
use mpi_ruby.Comm.ReduceGives.{
  Gives-then_some, Gives-comm_reduce, Gives-comm_allreduce, Gives-comm_scan,
}

module _ (env : Env) (size_of : ℕ → ℕ) (bound handle k fuel : ℕ) (mc : CommStruct)
    (sizes : TypeSizes env size_of) (short : DumpsUpTo env bound) (enough : bound < fuel) where
  free : (c : Call) → Keeps (HasSlot k) (checked env c)
  free c = Keeps-checked (HasSlot k) env c (λ c w p. p)

  Keeps-int_array : (vs : List Value) → Keeps (HasSlot k) (int_array env vs)
  unfolding int_array
  Keeps-int_array [] = λ w p. p
  Keeps-int_array (v ∷ vs) =
      let P = HasSlot k in
      let k2 : ℤ → List ℤ → M (List ℤ) = λ n ns. pure (n ∷ ns) in
      let k1 : ℤ → M (List ℤ) = λ n. int_array env vs >>= k2 n in
      Keeps-then P (lift (env.fix2int v)) k1 (λ w p. p)
        λ n. Keeps-then P (int_array env vs) (k2 n) (Keeps-int_array vs) λ ns w p. p

  Gives-load_share :
      (operand : Operand) (out : Option (ℤ × ℕ × Reply))
      → out ≢ none
      → Gives (λ _. Unit) (λ out. out ≢ none) (load_share env operand out)
  unfolding load_share
  Gives-load_share operand none q = absurd (q refl)
  Gives-load_share (Operand.array xs) (some (my_size, size, r)) q =
      Gives-then_some
        (load_results env size (received_in env (size * pos_part my_size) r) (pos_part my_size) 0)
        Reduced.all
  Gives-load_share (Operand.single _) (some (my_size, size, r)) q =
      let share : Bool → M (Option Reduced) = λ b. elim b [
        | true ↦ do
          obj ← lift (env.marshal_load (received_in env size r))
          pure (some (Reduced.one obj))
        | false ↦ pure (some Reduced.nothing)
      ] in
      elim (is_positive my_size) as (λ b. Gives (λ _. Unit) (λ out. out ≢ none) (share b)) [
        | true ↦ Gives-then_some (lift (env.marshal_load (received_in env size r))) Reduced.one
        | false ↦ λ w p e. cc
      ]

  Gives-comm_reduce_scatter :
      (len longest : ℤ) (operand : Operand) (rcounts : List Value)
      → Gives
          (HasSlot k)
          (λ out. out ≢ none)
          (comm_reduce_scatter (suc fuel) env mc len longest operand rcounts (slot_op env handle k))
  unfolding comm_reduce_scatter
  Gives-comm_reduce_scatter len longest operand rcounts =
      let P = HasSlot k in
      let R : Option Reduced → Type 0 = λ out. out ≢ none in
      let S : Option (ℤ × ℕ × Reply) → Type 0 = λ out. out ≢ none in
      let ary_ok : List ℤ → Call = λ ns.
        Call.allreduce_int IntOp.land (int_of_bool (counts_fit operand (sum_int ns))) mc.comm in
      let prepare : Reply → M ℤ =
        λ rank. lift (env.fix2int (rb_ary_entry rcounts (pos_part rank.out0))) in
      let m : Reply → List ℤ → M (Option (ℤ × ℕ × Reply)) = λ rank ns.
        reduce_with (suc fuel) env (slot_op env handle k) mc (Reduction.reduce_scatter ns) operand
          len longest (prepare rank) in
      let k6 : Reply → List ℤ → M (Option Reduced) =
        λ rank ns. m rank ns >>= load_share env operand in
      let all_ok : Reply → M (Unit {0}) =
        λ r. lift (if is_nonzero r.out0 then ok tt else mpi_exception Code.err_arg) in
      let k5 : Reply → List ℤ → Reply → M (Option Reduced) = λ rank ns r. all_ok r >> k6 rank ns in
      let k4 : Reply → List ℤ → M (Option Reduced) =
        λ rank ns. checked env (ary_ok ns) >>= k5 rank ns in
      let k3 : Reply → M (Option Reduced) = λ rank. int_array env rcounts >>= k4 rank in
      let right : Reply → M (Unit {0}) = λ csize.
        lift (
          if eq_int (pos (length rcounts)) csize.out0 then ok tt else mpi_exception Code.err_arg) in
      let k2 : Reply → Reply → M (Option Reduced) = λ rank csize. right csize >> k3 rank in
      let k1 : Reply → M (Option Reduced) =
        λ rank. checked env (Call.comm_size mc.comm) >>= k2 rank in
      Gives-then P R (checked env (Call.comm_rank mc.comm)) k1 (free _) λ rank.
        Gives-then P R (checked env (Call.comm_size mc.comm)) (k2 rank) (free _) λ csize.
          Gives-then P R (right csize) (λ _. k3 rank) (λ w p. p)
            λ _. Gives-then P R (int_array env rcounts) (k4 rank) (Keeps-int_array rcounts) λ ns.
              Gives-then P R (checked env (ary_ok ns)) (k5 rank ns) (free _) λ r.
                Gives-then P R (all_ok r) (λ _. k6 rank ns) (λ w p. p)
                  λ _.
                    Gives-last P S R (m rank ns) (load_share env operand)
                      (Gives-reduce_with env size_of bound handle k fuel mc sizes short enough
                        (Reduction.reduce_scatter ns) operand len longest (prepare rank)
                        (λ P w p. p))
                      (Gives-load_share operand)

out-of-fuel : {A : Type 0} (r : Outcome (Option A)) → Yields (λ out. out ≢ none) r → r ≢ ok none
out-of-fuel (ok out) q e = q (ground (arith, e))
out-of-fuel (raised _) q e = cc
out-of-fuel (fault _) q e = cc

-- With a Ruby procedure as the operation, in slot `k`, `reduce`, `allreduce`, `scan` and
-- `reduce_scatter` end, whatever MPI and the procedure do, even if the slot asked for room before:
-- where no dump is longer than `bound`, and MPI's types have the sizes they were made with, the `while`
-- loop goes round at most `bound + 2` times, because each round asks for more than the last.
pub reductions_end :
    (env : Env) (size_of : ℕ → ℕ) (bound handle k : ℕ) (mc : CommStruct) (len longest : ℤ)
    (operand : Operand) (rroot : Value) (rcounts : List Value) (s : OpSlot) (w : World)
    → TypeSizes env size_of
    → DumpsUpTo env bound
    → get_elem? w.op_table k ≡ some s
    → let rop = slot_op env handle k in
      let fuel = bound + 2 in
      ((comm_reduce fuel env mc len longest operand rop rroot w).0 ≢ ok none)
      × ((comm_allreduce fuel env mc len longest operand rop w).0 ≢ ok none)
      × ((comm_scan fuel env mc len longest operand rop w).0 ≢ ok none)
      × ((comm_reduce_scatter fuel env mc len longest operand rcounts rop w).0 ≢ ok none)
reductions_end env size_of bound handle k mc len longest operand rroot rcounts s w sizes short h =
    let two : bound + 2 ≡ suc (bound + 1) = omega arith in
    let lt : bound < bound + 1 = omega arith in
    rw two (
      out-of-fuel _ (
          Gives-comm_reduce env size_of bound handle k (bound + 1) mc sizes short lt len longest
            operand rroot w (s, h, tt)),
      out-of-fuel _ (
          Gives-comm_allreduce env size_of bound handle k (bound + 1) mc sizes short lt len longest
            operand w (s, h, tt)),
      out-of-fuel _ (
          Gives-comm_scan env size_of bound handle k (bound + 1) mc sizes short lt len longest
            operand w (s, h, tt)),
      out-of-fuel _ (
          Gives-comm_reduce_scatter env size_of bound handle k (bound + 1) mc sizes short lt len
            longest operand rcounts w (s, h, tt)),
    )
