-- ===== src/Comm/Combine.antt =====
-- mpi_comm.c with ops.rb: `comm_allreduce` of one object with a Ruby procedure, from the call of the
-- method down to the callback and back.
use mathlib.Core.List.{append-nil}
use mpi_ruby.Base.{
  refl, ℕ, suc, ◌*◌, ◌≡◌, ap, sym, ◌∙◌, ℤ, pos, negsuc, eq_int, eq_int_refl, List, [], ◌∷◌, ◌++◌,
  some, length, true, take, drop, take_all, drop_all, cells, get_elem?, set_same, length-append,
  length-cells, cells-length, arith, ltb,
}
use mpi_ruby.Ruby.{Value, Bytes, ok}
use mpi_ruby.Mpi.{Call, Code, Datatype, IntOp, Reduction, Reply, Env}
use mpi_ruby.Exception.Laws.{mpi_exception_success}
use mpi_ruby.State.{World, OpSlot, pure}
use mpi_ruby.Op.{op_get_resize}
use mpi_ruby.Op.Vector.{memcpy-take}
use mpi_ruby.Op.Callbacks.{op_fn}
use mpi_ruby.Op.Elementwise.{Element, Combines, stored, op_fn_lem}
use mpi_ruby.Comm.Struct.{CommStruct}
use mpi_ruby.Comm.PointToPoint.{marshalled}
use mpi_ruby.Comm.Reduction.{
  Operand, array_length, element_count, same_lengths, local_length, fill, apply_all, reduction,
  resize_loop, reduce_with,
}
use mpi_ruby.Comm.Reduce.{Reduced, load_reduced, load_everywhere, comm_allreduce}
use mpi_ruby.Comm.Rounds.{slot_op}

-- A process in an `allreduce` of one object with the operation in slot `k`, whose dumps have
-- `size` bytes with their NUL. `partner` is the object that the others have come to together.
pub record Reducing : Type 0 where
  pub env : Env
  pub mc : CommStruct
  pub handle : ℕ
  pub k : ℕ
  pub slot : OpSlot
  pub obj : Value
  pub partner : Value
  pub result : Value
  pub dump : Bytes
  pub partner_dump : Bytes
  pub result_dump : Bytes

abbrev pub nul : Bytes → Bytes
nul bs = bs ++ (0 ∷ [])

abbrev pub reduction_call : Reducing → ℕ → Call
reduction_call p dtype =
    Call.reduction (Reduction.allreduce (pos 1)) (nul p.dump) dtype p.handle p.mc.comm

-- The element of the two vectors.
abbrev pub element : Reducing → Element
element p = record {
  given = nul p.partner_dump;
  kept = nul p.dump;
  arg1 = p.partner;
  arg2 = p.obj;
  obj = p.result;
  dump = p.result_dump;
}

-- What the process relies on: MPI succeeds, every process passes the same lengths, the types have
-- `size` bytes, the callback is called once, on the partner's element and the own one, and what
-- it leaves is delivered; Marshal reads the dumps back, and the procedure combines the objects.
abbrev pub Reduces : ℕ → Reducing → Type 0
Reduces n p =
    ((log : List Call) (c : Call) → (p.env.reply log c).rv ≡ Code.success)
    × ((log : List Call) (op : IntOp) (i : ℤ)
        → (p.env.reply log (Call.allreduce_int op i p.mc.comm)).out0 ≡ i)
    × ((log : List Call) (dtype : ℕ)
        → (p.env.reply log (Call.type_size (Datatype.derived dtype))).out0 ≡ pos (suc n))
    × ((log : List Call) (dtype : ℕ)
        → p.env.applied log (reduction_call p dtype)
          ≡ record { invec = nul p.partner_dump; len = 1; inoutvec = nul p.dump } ∷ [])
    × ((log : List Call) (dtype : ℕ) (out : Bytes)
        → p.env.delivered log (reduction_call p dtype) (out ∷ []) ≡ out)
    × (p.env.marshal_dump p.obj ≡ ok p.dump)
    × (p.env.string_value_cstr p.dump ≡ ok p.dump)
    × Combines p.env p.slot.proc (suc n) (element p)
    × (length p.result_dump ≡ n)
    × (p.env.marshal_load (nul p.result_dump) ≡ ok p.result)

-- The callback leaves the result, and the slot as it was.
callback_lem :
    (p : Reducing) (n dtype : ℕ) (w : World)
    → Reduces n p
    → get_elem? w.op_table p.k ≡ some p.slot
    → op_fn p.env p.k (Datatype.derived dtype) (nul p.partner_dump) 1 (nul p.dump) w
      ≡ (ok (nul p.result_dump), record w { log = Call.type_size (Datatype.derived dtype) ∷ w.log })
callback_lem p n dtype w (good, _, sizes, _, _, _, _, combines, fits, _) h =
    let e = element p in
    let d = Datatype.derived dtype in
    let run =
      op_fn_lem p.env p.k (suc n) d (e ∷ []) p.slot w h (good w.log (Call.type_size d))
        (sizes w.log dtype) (combines, tt) in
    let small : ltb (length p.result_dump) (suc n) ≡ true = ground (arith, fits) in
    let none_left : drop (suc (length p.result_dump)) (nul p.dump) ≡ [] =
      ap (λ m. drop m (nul p.dump)) (ap suc fits ∙ sym combines.1) ∙ drop_all (nul p.dump) in
    let whole : stored (suc n) e ++ [] ≡ nul p.result_dump =
      append-nil (stored (suc n) e)
      ∙ ground (arith, small, none_left, append-nil (nul p.result_dump)) in
    ground (
      arith,
      run,
      append-nil (nul p.partner_dump),
      append-nil (nul p.dump),
      whole,
      small,
      set_same w.op_table p.k p.slot h,
    )

reduction_lem :
    (p : Reducing) (n dtype : ℕ) (w : World)
    → Reduces n p
    → get_elem? w.op_table p.k ≡ some p.slot
    → reduction p.env
        (slot_op p.env p.handle p.k)
        p.mc
        (Reduction.allreduce (pos 1))
        (nul p.dump)
        dtype
        w
      ≡ (
        ok (record (p.env.reply w.log (reduction_call p dtype)) { bytes = nul p.result_dump }),
        record w { log = Call.type_size (Datatype.derived dtype) ∷ reduction_call p dtype ∷ w.log },
      )
unfolding reduction apply_all
reduction_lem p n dtype w all h =
    let (good, _, sizes, applied, delivered, _, _, combines, fits, _) = all in
    ground (
      arith,
      applied w.log dtype,
      delivered w.log dtype (nul p.result_dump),
      callback_lem p n dtype (record w { log = reduction_call p dtype ∷ w.log }) all h,
      good w.log (reduction_call p dtype),
      mpi_exception_success,
    )

-- The send buffer is the dump.
fill_lem :
    (env : Env) (n : ℕ) (obj : Value) (tmp : Bytes) (w : World)
    → length tmp ≡ suc n
    → fill env (suc n) (pos n) (Operand.single obj) tmp (cells (suc n * 1) env.junk_char []) w
      ≡ (ok tmp, w)
unfolding fill
fill_lem env n obj tmp w l =
    let room : length (cells (suc n * 1) env.junk_char []) ≡ suc n =
      length-cells (suc n * 1) env.junk_char [] ∙ omega arith in
    let copied =
      memcpy-take (suc n) [] tmp (cells (suc n * 1) env.junk_char []) (omega (arith, l))
        (omega (arith, room)) in
    let all : take (suc n) tmp ≡ tmp = ap (λ m. take m tmp) (sym l) ∙ take_all tmp in
    let rest : drop (suc n) (cells (suc n * 1) env.junk_char []) ≡ [] =
      ap (λ m. drop m (cells (suc n * 1) env.junk_char [])) (sym room)
      ∙ drop_all (cells (suc n * 1) env.junk_char []) in
    ground (arith, copied, all, rest, append-nil tmp)

reduce_with_lem :
    (p : Reducing) (n fuel : ℕ) (longest : ℤ) (w : World)
    → Reduces n p
    → get_elem? w.op_table p.k ≡ some p.slot
    → p.slot.resize ≡ pos 0
    → (r : Reply) × (w' : World) × (reduce_with
          (suc fuel)
          p.env
          (slot_op p.env p.handle p.k)
          p.mc
          (Reduction.allreduce (pos 1))
          (Operand.single p.obj)
          (pos n)
          longest
          (pure tt)
          w
        ≡ (ok (some (tt, suc n, r)), w'))
      × (r.bytes ≡ nul p.result_dump)
unfolding reduce_with local_length marshalled element_count op_get_resize resize_loop
reduce_with_lem p n fuel longest w all h no_resize =
    let (good, same, sizes, applied, delivered, d, c, combines, fits, _) = all in
    let c₁ = Call.allreduce_int IntOp.max (pos n) p.mc.comm in
    let log₁ = c₁ ∷ w.log in
    let c₂ = Call.type_contiguous (pos (suc n)) in
    let t = (p.env.reply log₁ c₂).handle in
    let c₃ = Call.type_commit t in
    let log₃ = c₃ ∷ c₂ ∷ log₁ in
    let w₃ : World = record w { log = log₃ } in
    let w₄ : World = record w {
      log = Call.type_size (Datatype.derived t) ∷ reduction_call p t ∷ log₃;
    } in
    (
      record (p.env.reply log₃ (reduction_call p t)) { bytes = nul p.result_dump },
      record w₄ { log = Call.type_free t ∷ w₄.log },
      ground (
        arith,
        d,
        c,
        same w.log IntOp.max (pos n),
        good w.log c₁,
        good log₁ c₂,
        good (c₂ ∷ log₁) c₃,
        good w₄.log (Call.type_free t),
        mpi_exception_success,
        fill_lem p.env n p.obj (nul p.dump) w₃ combines.1,
        reduction_lem p n t w₃ all h,
        h,
        no_resize,
      ),
      refl,
    )

same_lengths_lem :
    (p : Reducing) (n : ℕ) (i : ℤ) (w : World)
    → Reduces n p
    → same_lengths p.env p.mc i w ≡ (
      ok tt,
      record w {
        log =
            Call.allreduce_int IntOp.min i p.mc.comm
            ∷ Call.allreduce_int IntOp.max i p.mc.comm
            ∷ w.log;
      },
    )
unfolding same_lengths
same_lengths_lem p n i w (good, same, _, _, _, _, _, _, _, _) =
    let c₁ = Call.allreduce_int IntOp.max i p.mc.comm in
    let c₂ = Call.allreduce_int IntOp.min i p.mc.comm in
    let agree : eq_int i i ≡ true = eq_int_refl i in
    ground (
      arith,
      same w.log IntOp.max i,
      same (c₁ ∷ w.log) IntOp.min i,
      good w.log c₁,
      good (c₁ ∷ w.log) c₂,
      mpi_exception_success,
      agree,
    )

-- `allreduce` of one object with a Ruby procedure, where every call of MPI succeeds, the processes
-- pass the same lengths, MPI's types have `n + 1` bytes, all dumps have `n` bytes and
-- are read back by Marshal with their NUL, `length` happens to hold `n`, no resize is pending in the
-- slot, and MPI calls the callback once, on the element that the others have come to and the own
-- one, and delivers the vector that the callback leaves:
-- the method returns the object that the procedure makes of the partner's object and its own, and
-- one round is enough.
pub allreduce_combines :
    (p : Reducing) (n fuel : ℕ) (longest : ℤ) (w : World)
    → Reduces n p
    → get_elem? w.op_table p.k ≡ some p.slot
    → p.slot.resize ≡ pos 0
    → (comm_allreduce
        (suc fuel)
        p.env
        p.mc
        (pos n)
        longest
        (Operand.single p.obj)
        (slot_op p.env p.handle p.k)
        w).0
      ≡ ok (some (Reduced.one p.result))
unfolding comm_allreduce load_everywhere load_reduced array_length element_count
allreduce_combines p n fuel longest w all h no_resize =
    let (good, same, sizes, applied, delivered, d, c, combines, fits, read) = all in
    let w₁ : World = record w {
      log =
          Call.allreduce_int IntOp.min (negsuc 0) p.mc.comm
          ∷ Call.allreduce_int IntOp.max (negsuc 0) p.mc.comm
          ∷ w.log;
    } in
    let (r, w', reduced, bytes) = reduce_with_lem p n fuel longest w₁ all h no_resize in
    let size : suc n ≡ length (nul p.result_dump) =
      ground (arith, length-append p.result_dump (0 ∷ []), fits) in
    let loaded : p.env.marshal_load (cells (suc n) p.env.junk_char r.bytes) ≡ ok p.result =
      ap (λ bs. p.env.marshal_load (cells (suc n) p.env.junk_char bs)) bytes
      ∙ ap (λ m. p.env.marshal_load (cells m p.env.junk_char (nul p.result_dump))) size
      ∙ ap p.env.marshal_load (cells-length p.env.junk_char (nul p.result_dump))
      ∙ read in
    ground (arith, same_lengths_lem p n (negsuc 0) w all, reduced, loaded)
