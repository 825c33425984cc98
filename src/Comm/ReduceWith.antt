-- ===== src/Comm/ReduceWith.antt =====
-- mpi_comm.c: the common part of the reductions ends.
use mpi_ruby.Base.{
  ℕ, suc, ◌*◌, ◌<◌, ◌≡◌, ◌≢◌, refl, ℤ, succ, pos_part, lt_int, List, [], ◌∷◌, Option, none, some,
  cells, if◌then◌else◌,
}
use mpi_ruby.Ruby.{Value, Bytes}
use mpi_ruby.Mpi.{Call, IntOp, Reduction, Reply, Env}
use mpi_ruby.State.{M, pure, ◌>>=◌, ◌>>◌, checked}
use mpi_ruby.State.Keeps.{
  Keeps, Gives, Keeps-then, Gives-bind, Gives-then, Keeps-checked, Gives-checked, Gives-last,
}
use mpi_ruby.Op.{op_get_resize}
use mpi_ruby.Op.Asks.{HasSlot, DumpsUpTo, Keeps-get}
use mpi_ruby.Comm.Struct.{CommStruct}
use mpi_ruby.Comm.PointToPoint.{marshalled}
use mpi_ruby.Comm.Reduction.{
  Operand, element_count, measure, local_length, fill, refill, reduction, resize_loop, reduce_with,
}
use mpi_ruby.Comm.Harmless.{Harmless, Harmless-marshalled, Harmless-refill, Harmless-fill}
use mpi_ruby.Comm.Rounds.{TypeSizes, slot_op, Keeps-reduction, Gives-resize_loop_first}

Harmless-measure :
    (env : Env) (xs : List Value) (len longest : ℤ) → Harmless (measure env xs len longest)
unfolding measure
Harmless-measure env [] len longest P = λ w p. p
Harmless-measure env (x ∷ xs) len longest P =
    Keeps-then P (marshalled env x)
      (λ _. measure env xs len (if lt_int longest len then len else longest))
      (Harmless-marshalled env x P)
      (λ _. Harmless-measure env xs len (if lt_int longest len then len else longest) P)

Harmless-local_length :
    (env : Env) (operand : Operand) (len longest : ℤ)
    → Harmless (local_length env operand len longest)
unfolding local_length
Harmless-local_length env (Operand.array xs) len longest P =
    let k1 : ℤ → M (ℤ × Bytes) = λ n. pure (n, []) in
    Keeps-then P (measure env xs len longest) k1 (Harmless-measure env xs len longest P) λ n w p. p
Harmless-local_length env (Operand.single obj) len longest P =
    let k1 : Bytes → M (ℤ × Bytes) = λ tmp. pure (len, tmp) in
    Keeps-then P (marshalled env obj) k1 (Harmless-marshalled env obj P) λ n w p. p

module _ (env : Env) (size_of : ℕ → ℕ) (bound handle k fuel : ℕ) (mc : CommStruct)
    (sizes : TypeSizes env size_of) (short : DumpsUpTo env bound) (enough : bound < fuel) where
  free : (c : Call) → Keeps (HasSlot k) (checked env c)
  free c = Keeps-checked (HasSlot k) env c (λ c w p. p)

  pub Gives-reduce_with :
      {A : Type 0} (kind : Reduction) (operand : Operand) (len longest : ℤ) (prepare : M A)
      → Harmless prepare
      → Gives
          (HasSlot k)
          (λ out. out ≢ none)
          (reduce_with (suc fuel) env (slot_op env handle k) mc kind operand len longest prepare)
  unfolding reduce_with
  Gives-reduce_with {A} kind operand len longest prepare harmless =
      let P = HasSlot k in
      let rop = slot_op env handle k in
      let B = Option (A × ℕ × Reply) in
      let R : B → Type 0 = λ out. out ≢ none in
      let S : Option (ℕ × Reply) → Type 0 = λ out. out ≢ none in
      let k9 : A → ℕ → Option (ℕ × Reply) → M B = λ a size out. elim out [
        | none ↦ pure none
        | some (dtype, last) ↦ do checked env (Call.type_free dtype); pure (some (a, size, last))
      ] in
      let go : (a : A) (size : ℕ) (out : Option (ℕ × Reply))
          → out ≢ none
          → Gives (λ _. Unit) R (k9 a size out) =
        λ a size out. elim out as (λ out. out ≢ none → Gives (λ _. Unit) R (k9 a size out)) [
          | none ↦ λ q. absurd (q refl)
          | some (dtype, last) ↦ λ q.
              Gives-then (λ _. Unit) R (checked env (Call.type_free dtype))
                (λ _. pure (some (a, size, last))) (λ w p. tt) (λ _ w p e. cc)
        ] in
      let k8 : ℤ × Bytes → A → ℤ → ℕ → Bytes → Reply → ℤ → M B = λ own a g t send r resize.
        resize_loop (suc fuel) env rop mc kind (refill env (pos_part (succ g)) own.0 operand) resize
          t send r
        >>= k9 a (pos_part (succ g)) in
      let k7 : ℤ × Bytes → A → ℤ → ℕ → Bytes → Reply → M B =
        λ own a g t send r. op_get_resize rop.struct >>= k8 own a g t send r in
      let k6 : ℤ × Bytes → A → ℤ → ℕ → Bytes → M B =
        λ own a g t send. reduction env rop mc kind send t >>= k7 own a g t send in
      let k5 : ℤ × Bytes → ℤ → ℕ → A → M B = λ own g t a.
        fill env (pos_part (succ g)) own.0 operand own.1
          (cells (pos_part (succ g) * element_count operand) env.junk_char [])
        >>= k6 own a g t in
      let k4 : ℤ × Bytes → ℤ → ℕ → M B = λ own g t. prepare >>= k5 own g t in
      let k3 : ℤ × Bytes → ℤ → Reply → M B =
        λ own g t. checked env (Call.type_commit t.handle) >> k4 own g t.handle in
      let k2 : ℤ × Bytes → Reply → M B =
        λ own g. checked env (Call.type_contiguous (succ g.out0)) >>= k3 own g.out0 in
      let k1 : ℤ × Bytes → M B =
        λ own. checked env (Call.allreduce_int IntOp.max own.0 mc.comm) >>= k2 own in
      Gives-then P R (local_length env operand len longest) k1
        (Harmless-local_length env operand len longest P)
        λ own.
          Gives-then P R (checked env (Call.allreduce_int IntOp.max own.0 mc.comm)) (k2 own)
            (free _)
            λ g.
              Gives-bind P (λ t. size_of t.handle ≡ pos_part (succ g.out0)) R
                (checked env (Call.type_contiguous (succ g.out0))) (k3 own g.out0) (free _)
                (Gives-checked P env (Call.type_contiguous (succ g.out0))
                  (λ t. size_of t.handle ≡ pos_part (succ g.out0)) (sizes.0 (succ g.out0)))
                λ t e.
                  Gives-then P R (checked env (Call.type_commit t.handle))
                    (λ _. k4 own g.out0 t.handle) (free _)
                    λ _. Gives-then P R prepare (k5 own g.out0 t.handle) (harmless P) λ a.
                      Gives-then P R
                        (fill env (pos_part (succ g.out0)) own.0 operand own.1
                          (cells (pos_part (succ g.out0) * element_count operand) env.junk_char []))
                        (k6 own a g.out0 t.handle)
                        (Harmless-fill env (pos_part (succ g.out0)) own.0 operand own.1 _ P)
                        λ send.
                          Gives-then P R (reduction env rop mc kind send t.handle)
                            (k7 own a g.out0 t.handle send)
                            (Keeps-reduction env size_of bound handle k (pos_part (succ g.out0))
                              t.handle (λ _. Unit) (λ _ _ _. tt) sizes short e mc kind send)
                            λ r.
                              Gives-then P R (op_get_resize rop.struct)
                                (k8 own a g.out0 t.handle send r) (Keeps-get P rop.struct)
                                λ resize.
                                  Gives-last P S R
                                    (resize_loop (suc fuel) env rop mc kind
                                      (refill env (pos_part (succ g.out0)) own.0 operand) resize
                                      t.handle send r)
                                    (k9 a (pos_part (succ g.out0)))
                                    (Gives-resize_loop_first env size_of bound handle k fuel
                                      t.handle resize mc kind
                                      (refill env (pos_part (succ g.out0)) own.0 operand) send r
                                      sizes short
                                      (Harmless-refill env (pos_part (succ g.out0)) own.0 operand)
                                      enough)
                                    (go a (pos_part (succ g.out0)))
