-- ===== src/Op/Asks.antt =====
-- mpi_op.c and ops.rb: the room that a slot may ask for, while MPI calls its function.
use mpi_ruby.Base.{
  ℕ, zero, suc, ◌*◌, ◌<◌, ◌≤◌, ◌≡◌, refl, ℤ, pos, succ, pos_part, List, [], ◌∷◌, ◌++◌, some, length,
  get_elem?, set, arith, ◌⊎◌, inl, inr, get_elem?-set_over, Bool-cases, Option-cases,
}
use mpi_ruby.Ruby.{Value, Bytes, Outcome, ok, raised, fault}
use mpi_ruby.Mpi.{Call, Datatype, Reply, Env}
use mpi_ruby.State.{World, OpSlot, M, ◌>>=◌, lift, checked}
use mpi_ruby.State.Keeps.{
  Keeps, Gives, Yields, Keeps-bind, Keeps-then, Keeps-checked, Gives-checked, Moves,
}
use mpi_ruby.Op.{MpiOp, slot, op_get_resize, op_clear_resize}
use mpi_ruby.Op.Vector.{chunk, for_elements, exceeds}
use mpi_ruby.Op.Callbacks.{load_element, store_element, proc_of, op_fn_element, op_fn}

-- Slot `k` is in the table, and its `resize` satisfies `Q`.
abbrev pub SlotWith : (ℤ → Type 0) → ℕ → World → Type 0
SlotWith Q k w = (s : OpSlot) × (get_elem? w.op_table k ≡ some s) × Q s.resize

abbrev pub HasSlot : ℕ → World → Type 0
HasSlot = SlotWith (λ _. Unit)

-- No room, or more than `size` and at most `bound + 1`.
abbrev pub Within : ℕ → ℕ → ℤ → Type 0
Within bound size r = (r ≡ pos 0) ⊎ (n : ℕ) × (r ≡ pos n) × (size < n) × (n ≤ suc bound)

abbrev pub Asks : ℕ → ℕ → ℕ → World → Type 0
Asks bound size = SlotWith (Within bound size)

-- Every string that Marshal.dump makes has at most `bound` bytes.
abbrev pub DumpsUpTo : Env → ℕ → Type 0
DumpsUpTo env bound = (v : Value) (str : Bytes) → env.marshal_dump v ≡ ok str → length str ≤ bound

module _ (env : Env) (bound size k : ℕ) (Q : ℤ → Type 0)
    (allowed : (n : ℕ) → size < suc n → n ≤ bound → Q (pos (suc n))) where
  Keeps-load_element :
      (P : World → Type 0) (i : ℕ) (vec : Bytes) → Keeps P (load_element env size i vec)
  unfolding load_element
  Keeps-load_element P i vec =
      Keeps-then P (lift (chunk (i * size) size vec)) (λ str. lift (env.marshal_load str))
        (λ w p. p) (λ str w p. p)

  Keeps-store_element :
      (i n : ℕ) (data_ v : Bytes)
      → n ≤ bound
      → Keeps (SlotWith Q k) (store_element k size i (pos n) data_ v)
  unfolding store_element
  Keeps-store_element i n data_ v le w (s, h, r) = elim (Bool-cases (exceeds (succ (pos n)) size)) [
    | inl e ↦
        (let s' : OpSlot = record s { resize = pos (suc n) } in
          let f : (store_element k size i (pos n) data_ v w).1.op_table ≡ set w.op_table k s' =
            ground arith in
          simp f (s', get_elem?-set_over w.op_table k s' h, allowed n (ground arith) le))
    | inr e ↦
        (let f : (store_element k size i (pos n) data_ v w).1.op_table ≡ w.op_table =
            ground arith in
          simp f (s, h, r))
  ]

  Keeps-op_fn_element :
      (invec : Bytes) (i : ℕ) (v : Bytes)
      → DumpsUpTo env bound
      → Keeps (SlotWith Q k) (op_fn_element env k size invec i v)
  unfolding op_fn_element proc_of
  Keeps-op_fn_element invec i v short =
      let P = SlotWith Q k in
      let k5 : Bytes → M Bytes =
        λ str. store_element k size i (pos (length str)) (str ++ (0 ∷ [])) v in
      let k4 : Value → M Bytes = λ obj. lift (env.marshal_dump obj) >>= k5 in
      let k3 : Value → Value → Value → M Bytes =
        λ arg1 arg2 proc. lift (env.proc_call proc arg1 arg2) >>= k4 in
      let k2 : Value → Value → M Bytes = λ arg1 arg2. proc_of k >>= k3 arg1 arg2 in
      let k1 : Value → M Bytes = λ arg1. load_element env size i v >>= k2 arg1 in
      Keeps-then P (load_element env size i invec) k1 (Keeps-load_element P i invec) λ arg1.
        Keeps-then P (load_element env size i v) (k2 arg1) (Keeps-load_element P i v) λ arg2.
          Keeps-then P (proc_of k) (k3 arg1 arg2) keeps_proc λ proc.
            Keeps-then P (lift (env.proc_call proc arg1 arg2)) k4 (λ w p. p)
              λ obj.
                Keeps-bind P (λ str. length str ≤ bound) (lift (env.marshal_dump obj)) k5 (λ w p. p)
                  (λ w p. dumped obj (env.marshal_dump obj) refl)
                  λ str le. Keeps-store_element i (length str) (str ++ (0 ∷ [])) v le
    where
      keeps_proc : Keeps (SlotWith Q k) (proc_of k)
      keeps_proc w (s, h, r) = (s, ground (arith, h), r)

      dumped :
          (obj : Value) (o : Outcome Bytes)
          → env.marshal_dump obj ≡ o
          → Yields (λ str. length str ≤ bound) o
      dumped obj (ok str) e = short obj str e
      dumped obj (raised x) e = tt
      dumped obj (fault x) e = tt

  Keeps-for_elements :
      (P : World → Type 0) (n i : ℕ) (body : ℕ → Bytes → M Bytes) (v : Bytes)
      → ((i : ℕ) (v : Bytes) → Keeps P (body i v))
      → Keeps P (for_elements n i body v)
  unfolding for_elements
  Keeps-for_elements P zero i body v keep = λ w p. p
  Keeps-for_elements P (suc n) i body v keep =
      Keeps-then P (body i v) (for_elements n (suc i) body) (keep i v)
        λ v'. Keeps-for_elements P n (suc i) body v' keep

  -- While the elements have `size` bytes, what the function asks for is more, and no more than a dump
  -- needs.
  pub Keeps-op_fn :
      (dtype : Datatype) (invec : Bytes) (len : ℕ) (v : Bytes)
      → DumpsUpTo env bound
      → ((log : List Call) → pos_part (env.reply log (Call.type_size dtype)).out0 ≡ size)
      → Keeps (SlotWith Q k) (op_fn env k dtype invec len v)
  unfolding op_fn
  Keeps-op_fn dtype invec len v short sized =
      let P = SlotWith Q k in
      let rest : Reply → M Bytes =
        λ r. for_elements len 0 (op_fn_element env k (pos_part r.out0) invec) v in
      Keeps-bind P (λ r. pos_part r.out0 ≡ size) (checked env (Call.type_size dtype)) rest
        (Keeps-checked P env (Call.type_size dtype) (λ c w p. p))
        (Gives-checked P env (Call.type_size dtype) (λ r. pos_part r.out0 ≡ size) sized)
        λ r e. simp e (
          Keeps-for_elements P len 0 (op_fn_element env k size invec) v
            (λ i v. Keeps-op_fn_element invec i v short))

-- `op_clear_resize` and `op_get_resize` of the struct of a slot of the table.
pub Moves-clear :
    (o : MpiOp) (bound size k : ℕ)
    → o.idx ≡ pos k
    → Moves (HasSlot k) (Asks bound size k) (op_clear_resize o)
unfolding op_clear_resize
Moves-clear o bound size k e w (s, h, u) =
    let s' : OpSlot = record s { resize = pos 0 } in
    let f : (op_clear_resize o w).1.op_table ≡ set w.op_table k s' = ground (arith, h, e) in
    simp f (s', get_elem?-set_over w.op_table k s' h, inl refl)

pub Keeps-get : (P : World → Type 0) (o : MpiOp) → Keeps P (op_get_resize o)
unfolding op_get_resize
Keeps-get P o w p = elim (Option-cases (slot o.idx w)) [
  | inl e ↦ (let f : (op_get_resize o w).1 ≡ w = ground (arith, e) in simp f p)
  | inr (s, e) ↦ (let f : (op_get_resize o w).1 ≡ w = ground (arith, e) in simp f p)
]

pub Gives-get :
    (o : MpiOp) (bound size k : ℕ)
    → o.idx ≡ pos k
    → Gives (Asks bound size k) (Within bound size) (op_get_resize o)
unfolding op_get_resize
Gives-get o bound size k e w (s, h, r) =
    let f : (op_get_resize o w).0 ≡ ok s.resize = ground (arith, h, e) in simp f r
