-- ===== src/Op/Callbacks.antt =====
-- The functions that MPI calls in a reduction: op_0, op_1, ... of src/ops.rb, and the predefined
-- ones of src/mpi_op.c. Each takes `*dtype`, `invec`, `*len` and `inoutvec`, and yields `inoutvec`
-- as it leaves it; what it has written when it raises is not kept. `stray` is the local variable
-- `length` of the predefined ones, which no statement sets.
use mpi_ruby.Base.{
  ℕ, ◌*◌, ℤ, pos, succ, pos_part, is_negative, is_positive, Bool, ◌&&◌, ◌||◌, not, [], ◌∷◌, ◌++◌,
  none, some, length, drop, get_elem?, if◌then◌else◌,
}
use mpi_ruby.Ruby.{Value, Bytes, Outcome, ok, fault, Fault, truthy, int_of_bool}
use mpi_ruby.Mpi.{Call, Datatype, Env}
use mpi_ruby.State.{M, pure, ◌>>=◌, ◌>>◌, lift, checked}
use mpi_ruby.Op.{update_slot}
use mpi_ruby.Op.Vector.{chunk, memcpy, for_elements, exceeds}

-- `Marshal.load` of the element `i`.
unfoldable pub load_element : Env → ℕ → ℕ → Bytes → M Value
load_element env size i vec = do str ← lift (chunk (i * size) size vec); lift (env.marshal_load str)

-- A string that does not fit is not stored: the slot asks for a larger size.
unfoldable pub store_element : ℕ → ℕ → ℕ → ℤ → Bytes → Bytes → M Bytes
store_element slot size i length data_ inoutvec =
    if exceeds (succ length) size
    then (do update_slot (pos slot) (λ s. record s { resize = succ length }); pure inoutvec)
    else lift (memcpy inoutvec (i * size) data_ (succ length))

-- `op_table[slot].proc`
unfoldable pub proc_of : ℕ → M Value
proc_of slot w = elim (get_elem? w.op_table slot) [
  | none ↦ (fault Fault.out_of_bounds, w)
  | some s ↦ (ok s.proc, w)
]

unfoldable pub op_fn_element : Env → ℕ → ℕ → Bytes → ℕ → Bytes → M Bytes
op_fn_element env slot size invec i inoutvec = do
  arg1 ← load_element env size i invec
  arg2 ← load_element env size i inoutvec
  proc ← proc_of slot
  obj ← lift (env.proc_call proc arg1 arg2)
  str ← lift (env.marshal_dump obj)
  store_element slot size i (pos (length str)) (str ++ (0 ∷ [])) inoutvec

-- `op_0`, `op_1`, ...
unfoldable pub op_fn : Env → ℕ → Datatype → Bytes → ℕ → Bytes → M Bytes
op_fn env slot dtype invec len inoutvec = do
  r ← checked env (Call.type_size dtype)
  for_elements len 0 (op_fn_element env slot (pos_part r.out0) invec) inoutvec

-- The loop body of the predefined operations that compute an object. All store through slot 0.
unfoldable pub predef_element :
    Env → ℤ → (Value → Value → Outcome Value) → ℕ → Bytes → ℕ → Bytes → M Bytes
predef_element env stray combine size invec i inoutvec = do
  receiver ← load_element env size i invec
  arg ← load_element env size i inoutvec
  obj ← lift (combine receiver arg)
  str ← lift (env.marshal_dump obj)
  data_ ← lift (env.string_value_cstr str)
  store_element 0 size i stray (data_ ++ (0 ∷ [])) inoutvec

unfoldable pub predef_fn :
    Env → ℤ → (Value → Value → Outcome Value) → Datatype → Bytes → ℕ → Bytes → M Bytes
predef_fn env stray combine dtype invec len inoutvec = do
  r ← checked env (Call.type_size dtype)
  for_elements len 0 (predef_element env stray combine (pos_part r.out0) invec) inoutvec

unfoldable pub op_sum : Env → ℤ → Datatype → Bytes → ℕ → Bytes → M Bytes
op_sum env stray = predef_fn env stray (λ receiver arg. env.funcall receiver "+" arg)

unfoldable pub op_prod : Env → ℤ → Datatype → Bytes → ℕ → Bytes → M Bytes
op_prod env stray = predef_fn env stray (λ receiver arg. env.funcall receiver "*" arg)

unfoldable pub op_lor : Env → ℤ → Datatype → Bytes → ℕ → Bytes → M Bytes
op_lor env stray = predef_fn env stray (λ receiver arg. env.funcall receiver "or" arg)

unfoldable pub op_bor : Env → ℤ → Datatype → Bytes → ℕ → Bytes → M Bytes
op_bor env stray = predef_fn env stray (λ receiver arg. env.funcall receiver "|" arg)

unfoldable pub op_land : Env → ℤ → Datatype → Bytes → ℕ → Bytes → M Bytes
op_land env stray = predef_fn env stray (λ receiver arg. env.funcall receiver "and" arg)

unfoldable pub op_band : Env → ℤ → Datatype → Bytes → ℕ → Bytes → M Bytes
op_band env stray = predef_fn env stray (λ receiver arg. env.funcall receiver "&" arg)

unfoldable pub op_bxor : Env → ℤ → Datatype → Bytes → ℕ → Bytes → M Bytes
op_bxor env stray = predef_fn env stray (λ receiver arg. env.funcall receiver "^" arg)

-- A truth value becomes the Fixnum 0 or 1, both of which are true in Ruby.
unfoldable pub lxor_of : Value → Value → Value
lxor_of arg1 arg2 =
    let val1 = truthy arg1 in
    let val2 = truthy arg2 in Value.fixnum (int_of_bool ((val1 || val2) && (not val1 || not val2)))

unfoldable pub op_lxor : Env → ℤ → Datatype → Bytes → ℕ → Bytes → M Bytes
op_lxor env stray = predef_fn env stray (λ arg1 arg2. ok (lxor_of arg1 arg2))

-- The loop body of the operations that keep one of the two elements.
unfoldable pub select_element : Env → ℤ → (Value → Value → M Bool) → ℕ → Bytes → ℕ → Bytes → M Bytes
select_element env stray takes size invec i inoutvec = do
  receiver ← load_element env size i invec
  arg ← load_element env size i inoutvec
  taken ← takes receiver arg
  if taken
      then lift (memcpy inoutvec (i * size) (drop (i * size) invec) (succ stray))
      else pure inoutvec

unfoldable pub select_fn :
    Env → ℤ → (Value → Value → M Bool) → Datatype → Bytes → ℕ → Bytes → M Bytes
select_fn env stray takes dtype invec len inoutvec = do
  r ← checked env (Call.type_size dtype)
  for_elements len 0 (select_element env stray takes (pos_part r.out0) invec) inoutvec

-- `cmp` is the VALUE that `<=>` returns, not its number.
unfoldable pub op_max : Env → ℤ → Datatype → Bytes → ℕ → Bytes → M Bytes
op_max env stray = select_fn env stray (λ receiver arg. do
  cmp ← lift (env.funcall receiver "<=>" arg)
  pure (is_positive (env.word_of_value cmp)))

unfoldable pub op_min : Env → ℤ → Datatype → Bytes → ℕ → Bytes → M Bytes
op_min env stray = select_fn env stray (λ receiver arg. do
  cmp ← lift (env.funcall receiver "<=>" arg)
  n ← lift (env.fix2int cmp)
  pure (is_negative n))

-- `rb_funcall(rb_ary_entry(ary1, 0), id_cmp, 1, rb_ary_entry(ary2, 0))`, as a word.
unfoldable pub compare_first : Env → Value → Value → M ℤ
compare_first env ary1 ary2 = do
  first1 ← lift (env.ary_entry ary1 0)
  first2 ← lift (env.ary_entry ary2 0)
  cmp ← lift (env.funcall first1 "<=>" first2)
  pure (env.word_of_value cmp)

unfoldable pub op_maxloc : Env → ℤ → Datatype → Bytes → ℕ → Bytes → M Bytes
op_maxloc env stray =
    select_fn env stray (λ ary1 ary2. do cmp ← compare_first env ary1 ary2; pure (is_positive cmp))

unfoldable pub op_minloc : Env → ℤ → Datatype → Bytes → ℕ → Bytes → M Bytes
op_minloc env stray =
    select_fn env stray (λ ary1 ary2. do cmp ← compare_first env ary1 ary2; pure (is_negative cmp))
