-- ===== src/Comm/Rounds.antt =====
-- mpi_comm.c: how often the `while` loop of a reduction with a Ruby procedure goes round.
use mpi_ruby.Base.{
  ℕ, zero, suc, ◌+◌, ◌<◌, ◌≤◌, ◌≡◌, ◌≢◌, ◌∙◌, refl, ℤ, pos, negsuc, pos_part, List, [], ◌∷◌, Option,
  none, arith, inl, inr,
}
use mpi_ruby.Ruby.{Bytes}
use mpi_ruby.Mpi.{Call, Datatype, Reduction, Reply, Application, Env}
use mpi_ruby.Exception.{mpi_exception}
use mpi_ruby.State.{M, pure, ◌>>=◌, ◌>>◌, lift, checked}
use mpi_ruby.State.Keeps.{
  Keeps, Gives, Moves, Keeps-bind, Keeps-then, Gives-bind, Keeps-checked, Gives-checked, Moves-then,
  Gives-moved,
}
use mpi_ruby.Op.{op_get_resize, op_clear_resize}
use mpi_ruby.Op.Callbacks.{op_fn}
use mpi_ruby.Op.Asks.{
  HasSlot, SlotWith, Within, Asks, DumpsUpTo, Keeps-op_fn, Moves-clear, Keeps-get, Gives-get,
}
use mpi_ruby.Comm.Struct.{CommStruct}
use mpi_ruby.Comm.Reduction.{RubyOp, apply_all, reduction, within_buffer, resize_round, resize_loop}
use mpi_ruby.Comm.Harmless.{Harmless}

-- A handle stands for a type of `size_of` bytes: what MPI_Type_contiguous was given, and what
-- MPI_Type_size answers.
abbrev pub TypeSizes : Env → (ℕ → ℕ) → Type 0
TypeSizes env size_of =
    ((n : ℤ) (log : List Call)
      → size_of (env.reply log (Call.type_contiguous n)).handle ≡ pos_part n)
    × ((h : ℕ) (log : List Call)
        → pos_part (env.reply log (Call.type_size (Datatype.derived h))).out0 ≡ size_of h)

-- The function of slot `k`.
abbrev pub slot_op : Env → ℕ → ℕ → RubyOp
slot_op env handle k = record { struct = record { op = handle; idx = pos k }; fn = op_fn env k }

module _ (env : Env) (size_of : ℕ → ℕ) (bound handle k : ℕ) where
  module _ (size dtype : ℕ) (Q : ℤ → Type 0)
      (allowed : (n : ℕ) → size < suc n → n ≤ bound → Q (pos (suc n)))
      (sizes : TypeSizes env size_of) (short : DumpsUpTo env bound) (e : size_of dtype ≡ size) where
    Keeps-apply_all :
        (applied : List Application)
        → Keeps (SlotWith Q k) (apply_all (op_fn env k) (Datatype.derived dtype) applied)
    unfolding apply_all
    Keeps-apply_all [] = λ w p. p
    Keeps-apply_all (a ∷ applied) =
        let rest : Bytes → M (List Bytes) = λ out.
          apply_all (op_fn env k) (Datatype.derived dtype) applied >>= λ outs. pure (out ∷ outs) in
        Keeps-then (SlotWith Q k) (op_fn env k (Datatype.derived dtype) a.invec a.len a.inoutvec)
          rest
          (Keeps-op_fn env bound size k Q allowed (Datatype.derived dtype) a.invec a.len a.inoutvec
            short (λ log. sizes.1 dtype log ∙ e))
          λ out.
            Keeps-then (SlotWith Q k) (apply_all (op_fn env k) (Datatype.derived dtype) applied)
              (λ outs. pure (out ∷ outs)) (Keeps-apply_all applied) (λ outs w p. p)

    pub Keeps-reduction :
        (mc : CommStruct) (kind : Reduction) (send : Bytes)
        → Keeps (SlotWith Q k) (reduction env (slot_op env handle k) mc kind send dtype)
    unfolding reduction
    Keeps-reduction mc kind send w p =
        let P = SlotWith Q k in
        let c = Call.reduction kind send dtype handle mc.comm in
        let r = env.reply w.log c in
        let last : List Bytes → Reply = λ outs. record r { bytes = env.delivered w.log c outs } in
        let rest : List Bytes → M Reply = λ outs. lift (mpi_exception r.rv) >> pure (last outs) in
        Keeps-then P (apply_all (op_fn env k) (Datatype.derived dtype) (env.applied w.log c)) rest
          (Keeps-apply_all (env.applied w.log c))
          (λ outs.
            Keeps-then P (lift (mpi_exception r.rv)) (λ _. pure (last outs)) (λ w p. p)
              (λ _ w p. p))
          (record w { log = c ∷ w.log }) p

  Moves-resize_round :
      (n dtype : ℕ) (mc : CommStruct) (kind : Reduction) (again : Bytes → M Bytes) (send : Bytes)
      → TypeSizes env size_of
      → DumpsUpTo env bound
      → ((send : Bytes) → Harmless (again send))
      → Moves
          (HasSlot k)
          (Asks bound n k)
          (resize_round env (slot_op env handle k) mc kind again (pos n) dtype send)
  unfolding resize_round
  Moves-resize_round n dtype mc kind again send sizes short same =
      let P = Asks bound n k in
      let rop = slot_op env handle k in
      let k5 : ℕ → Bytes → Reply → M (ℕ × Bytes × Reply) = λ h send' r. pure (h, send', r) in
      let redo : ℕ → Bytes → M (ℕ × Bytes × Reply) =
        λ h send'. reduction env rop mc kind send' h >>= k5 h send' in
      let room = within_buffer kind (pos n) send in
      let k4 : ℕ → Bytes → M (ℕ × Bytes × Reply) = λ h send'. lift room >> redo h send' in
      let k3 : ℕ → M (ℕ × Bytes × Reply) = λ h. again send >>= k4 h in
      let k2 : Reply → M (ℕ × Bytes × Reply) =
        λ t. checked env (Call.type_commit t.handle) >> k3 t.handle in
      let k1 : M (ℕ × Bytes × Reply) = checked env (Call.type_contiguous (pos n)) >>= k2 in
      let free : (c : Call) → Keeps P (checked env c) = λ c. Keeps-checked P env c (λ c w p. p) in
      Moves-then (HasSlot k) P (op_clear_resize rop.struct)
        (λ _. checked env (Call.type_free dtype) >> k1) (Moves-clear rop.struct bound n k refl)
        λ _.
          Keeps-then P (checked env (Call.type_free dtype)) (λ _. k1) (free _)
            λ _.
              Keeps-bind P (λ t. size_of t.handle ≡ n) (checked env (Call.type_contiguous (pos n)))
                k2 (free _)
                (Gives-checked P env (Call.type_contiguous (pos n)) (λ t. size_of t.handle ≡ n)
                  (sizes.0 (pos n)))
                λ t e.
                  Keeps-then P (checked env (Call.type_commit t.handle)) (λ _. k3 t.handle) (free _)
                    λ _. Keeps-then P (again send) (k4 t.handle) (same send P) λ send'.
                      Keeps-then P (lift room) (λ _. redo t.handle send') (λ w p. p)
                        λ _.
                          Keeps-then P (reduction env rop mc kind send' t.handle)
                            (k5 t.handle send')
                            (Keeps-reduction n t.handle (Within bound n)
                              (λ m lt le. inr (suc m, refl, lt, omega arith)) sizes short e mc kind
                              send')
                            (λ r w p. p)

  Gives-next_round :
      (fuel n dtype : ℕ) (mc : CommStruct) (kind : Reduction) (again : Bytes → M Bytes)
      (send : Bytes)
      → TypeSizes env size_of
      → DumpsUpTo env bound
      → ((send : Bytes) → Harmless (again send))
      → ((dtype' : ℕ) (resize' : ℤ) (send' : Bytes) (r' : Reply)
          → Within bound n resize'
          → Gives
              (HasSlot k)
              (λ out. out ≢ none)
              (resize_loop fuel env (slot_op env handle k) mc kind again resize' dtype' send' r'))
      → Gives
          (HasSlot k)
          (λ out. out ≢ none)
          (resize_round env (slot_op env handle k) mc kind again (pos n) dtype send >>= λ next.
            op_get_resize (record { op = handle; idx = pos k }) >>= λ resize'.
            resize_loop fuel env (slot_op env handle k) mc kind again resize' next.0 next.1 next.2)
  Gives-next_round fuel n dtype mc kind again send sizes short same rest =
      let P = Asks bound n k in
      let rop = slot_op env handle k in
      let R : Option (ℕ × Reply) → Type 0 = λ out. out ≢ none in
      let k2 : ℕ × Bytes × Reply → ℤ → M (Option (ℕ × Reply)) =
        λ next resize'. resize_loop fuel env rop mc kind again resize' next.0 next.1 next.2 in
      let k1 : ℕ × Bytes × Reply → M (Option (ℕ × Reply)) =
        λ next. op_get_resize rop.struct >>= k2 next in
      Gives-moved (HasSlot k) P R (resize_round env rop mc kind again (pos n) dtype send) k1
        (Moves-resize_round n dtype mc kind again send sizes short same)
        λ next.
          Gives-bind P (Within bound n) R (op_get_resize rop.struct) (k2 next)
            (Keeps-get P rop.struct) (Gives-get rop.struct bound n k refl)
            λ resize' within w p. rest next.0 resize' next.1 next.2 within w (p.0, p.1, tt)

  -- Each round asks for more than the last, and never for more than the longest dump needs.
  Gives-resize_loop :
      (fuel size dtype : ℕ) (resize : ℤ) (mc : CommStruct) (kind : Reduction)
      (again : Bytes → M Bytes) (send : Bytes) (r : Reply)
      → TypeSizes env size_of
      → DumpsUpTo env bound
      → ((send : Bytes) → Harmless (again send))
      → Within bound size resize
      → suc bound ≤ fuel + size
      → Gives
          (HasSlot k)
          (λ out. out ≢ none)
          (resize_loop fuel env (slot_op env handle k) mc kind again resize dtype send r)
  unfolding resize_loop
  Gives-resize_loop zero size dtype resize mc kind again send r sizes short same (inl e) le =
      simp e (λ w p. λ o. cc)
  Gives-resize_loop zero size dtype resize mc kind again send r sizes short same
        (inr (n, e, lt, up)) le =
      absurd (omega arith)
  Gives-resize_loop (suc fuel) size dtype resize mc kind again send r sizes short same (inl e) le =
      simp e (λ w p. λ o. cc)
  Gives-resize_loop (suc fuel) size dtype resize mc kind again send r sizes short same
        (inr (zero, e, lt, up)) le =
      absurd (omega arith)
  Gives-resize_loop (suc fuel) size dtype resize mc kind again send r sizes short same
        (inr (suc n, e, lt, up)) le =
      simp e (
        Gives-next_round fuel (suc n) dtype mc kind again send sizes short same
          (λ dtype' resize' send' r' within.
            Gives-resize_loop fuel (suc n) dtype' resize' mc kind again send' r' sizes short same
              within (omega arith)))

  -- The first round is for what the slot holds before, which may be left over.
  pub Gives-resize_loop_first :
      (fuel dtype : ℕ) (resize : ℤ) (mc : CommStruct) (kind : Reduction) (again : Bytes → M Bytes)
      (send : Bytes) (r : Reply)
      → TypeSizes env size_of
      → DumpsUpTo env bound
      → ((send : Bytes) → Harmless (again send))
      → bound < fuel
      → Gives
          (HasSlot k)
          (λ out. out ≢ none)
          (resize_loop (suc fuel) env (slot_op env handle k) mc kind again resize dtype send r)
  unfolding resize_loop
  Gives-resize_loop_first fuel dtype (pos zero) mc kind again send r sizes short same le =
      λ w p. λ o. cc
  Gives-resize_loop_first fuel dtype (negsuc n) mc kind again send r sizes short same le =
      λ w p. λ o. cc
  Gives-resize_loop_first fuel dtype (pos (suc n)) mc kind again send r sizes short same le =
      Gives-next_round fuel (suc n) dtype mc kind again send sizes short same
        (λ dtype' resize' send' r' within.
          Gives-resize_loop fuel (suc n) dtype' resize' mc kind again send' r' sizes short same
            within (omega arith))
