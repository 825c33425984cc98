-- ===== src/Op/Elementwise.antt =====
-- mpi_op.c and ops.rb: what a reduction with a Ruby procedure does to a vector, element by element.
use mpi_ruby.Base.{
  ℕ, suc, ◌*◌, ◌≡◌, ℤ, pos, List, [], ◌∷◌, ◌++◌, some, length, drop, get_elem?, set, if◌then◌else◌,
  ltb, Bool-cases, inl, inr, length-append, drop-append_le, length-drop, get_elem?-set_over,
  set-set, set_same, arith, append_assoc,
}
use mpi_ruby.Ruby.{Value, Bytes, ok}
use mpi_ruby.Mpi.{Call, Code, Datatype, Env}
use mpi_ruby.Exception.Laws.{mpi_exception_success}
use mpi_ruby.State.{World, OpSlot}
use mpi_ruby.Op.Vector.{for_elements, chunk-append, memcpy-append}
use mpi_ruby.Op.Callbacks.{load_element, store_element, proc_of, op_fn_element, op_fn}

-- The two elements at a place of the vectors, the objects that they are, what the procedure makes
-- of these, and its dump.
pub record Element : Type 0 where
  pub given : Bytes
  pub kept : Bytes
  pub arg1 : Value
  pub arg2 : Value
  pub obj : Value
  pub dump : Bytes

abbrev pub Combines : Env → Value → ℕ → Element → Type 0
Combines env proc size e =
    (length e.given ≡ size)
    × (length e.kept ≡ size)
    × (env.marshal_load e.given ≡ ok e.arg1)
    × (env.marshal_load e.kept ≡ ok e.arg2)
    × (env.proc_call proc e.arg1 e.arg2 ≡ ok e.obj)
    × (env.marshal_dump e.obj ≡ ok e.dump)

abbrev pub AllCombine : Env → Value → ℕ → List Element → Type 0
AllCombine env proc size [] = Unit
AllCombine env proc size (e ∷ es) = Combines env proc size e × AllCombine env proc size es

-- The element as it is afterwards: the dump and its NUL at its head, if they fit.
abbrev pub stored : ℕ → Element → Bytes
stored size e =
    if ltb (length e.dump) size
    then (e.dump ++ (0 ∷ [])) ++ drop (suc (length e.dump)) e.kept
    else e.kept

-- What the slot asks for: the room that the last dump needs that does not fit.
abbrev pub asked : ℕ → Element → ℤ → ℤ
asked size e r = if ltb (length e.dump) size then r else pos (suc (length e.dump))

abbrev pub asked_by : ℕ → List Element → ℤ → ℤ
asked_by size [] r = r
asked_by size (e ∷ es) r = asked_by size es (asked size e r)

-- A vector of such parts.
abbrev pub pack : (Element → Bytes) → List Element → Bytes
pack f [] = []
pack f (e ∷ es) = f e ++ pack f es

abbrev pub with_resize : ℕ → OpSlot → ℤ → World → World
with_resize slot s r w = record w { op_table = set w.op_table slot (record s { resize = r }) }

pub load_element-append :
    (env : Env) (size i : ℕ) (pre a rest : Bytes) (x : Value) (w : World)
    → length pre ≡ i * size
    → length a ≡ size
    → env.marshal_load a ≡ ok x
    → load_element env size i (pre ++ (a ++ rest)) w ≡ (ok x, w)
unfolding load_element
load_element-append env size i pre a rest x w hp ha hx = ground (arith, chunk-append pre a rest)

pub store_element-append :
    (env : Env) (slot size i : ℕ) (pre rest : Bytes) (e : Element) (s : OpSlot) (w : World)
    → length pre ≡ i * size
    → length e.kept ≡ size
    → get_elem? w.op_table slot ≡ some s
    → store_element slot size i
        (pos (length e.dump))
        (e.dump ++ (0 ∷ []))
        (pre ++ (e.kept ++ rest))
        w
      ≡ (ok (pre ++ (stored size e ++ rest)), with_resize slot s (asked size e s.resize) w)
unfolding store_element
store_element-append env slot size i pre rest e s w hp hk hs =
    elim (Bool-cases (ltb (length e.dump) size)) [
      | inl h ↦ ground (
        arith,
        memcpy-append pre (e.dump ++ (0 ∷ [])) (e.kept ++ rest),
        length-append e.dump (0 ∷ []),
        length-append e.kept rest,
        drop-append_le (suc (length e.dump)) e.kept rest,
        append_assoc (e.dump ++ (0 ∷ [])) (drop (suc (length e.dump)) e.kept) rest,
        set_same w.op_table slot s hs,
      )
      | inr h ↦ ground arith
    ]

op_fn_element-append :
    (env : Env) (slot size i : ℕ) (before pre rest rest' : Bytes) (e : Element) (s : OpSlot)
    (w : World)
    → length before ≡ i * size
    → length pre ≡ i * size
    → get_elem? w.op_table slot ≡ some s
    → Combines env s.proc size e
    → op_fn_element env slot size (before ++ (e.given ++ rest')) i (pre ++ (e.kept ++ rest)) w
      ≡ (ok (pre ++ (stored size e ++ rest)), with_resize slot s (asked size e s.resize) w)
unfolding op_fn_element proc_of
op_fn_element-append env slot size i before pre rest rest' e s w hb hp hs (lg, lk, x, y, o, d) =
    ground (
      arith,
      load_element-append env size i before e.given rest' e.arg1 w hb lg x,
      load_element-append env size i pre e.kept rest e.arg2 w hp lk y,
      store_element-append env slot size i pre rest e s w hp lk hs,
    )

length-stored : (size : ℕ) (e : Element) → length e.kept ≡ size → length (stored size e) ≡ size
length-stored size e hk = elim (Bool-cases (ltb (length e.dump) size)) [
  | inl h ↦ ground (
    arith,
    length-append (e.dump ++ (0 ∷ [])) (drop (suc (length e.dump)) e.kept),
    length-append e.dump (0 ∷ []),
    length-drop (suc (length e.dump)) e.kept,
  )
  | inr h ↦ ground arith
]

for_elements-op_fn :
    (env : Env) (slot size i : ℕ) (before pre : Bytes) (es : List Element) (s : OpSlot) (w : World)
    → length before ≡ i * size
    → length pre ≡ i * size
    → get_elem? w.op_table slot ≡ some s
    → AllCombine env s.proc size es
    → for_elements
        (length es)
        i
        (op_fn_element env slot size (before ++ pack (λ e. e.given) es))
        (pre ++ pack (λ e. e.kept) es)
        w
      ≡ (ok (pre ++ pack (stored size) es), with_resize slot s (asked_by size es s.resize) w)
unfolding for_elements
for_elements-op_fn env slot size i before pre [] s w hb hp hs hes =
    ground (arith, set_same w.op_table slot s hs)
for_elements-op_fn env slot size i before pre (e ∷ es) s w hb hp hs (he, hes) =
    let s₁ : OpSlot = record s { resize = asked size e s.resize } in
    ground (
      arith,
      op_fn_element-append env slot size i before pre (pack (λ e. e.kept) es)
          (pack (λ e. e.given) es) e s w hb hp hs he,
      for_elements-op_fn env slot size (suc i) (before ++ e.given) (pre ++ stored size e) es s₁
          (with_resize slot s (asked size e s.resize) w)
          (ground (arith, length-append before e.given))
          (ground (arith, length-append pre (stored size e), length-stored size e he.1))
          (get_elem?-set_over w.op_table slot s₁ hs) hes,
      append_assoc before e.given (pack (λ e. e.given) es),
      append_assoc pre (stored size e) (pack (λ e. e.kept) es),
      append_assoc pre (stored size e) (pack (stored size) es),
      set-set w.op_table slot s₁ (record s { resize = asked_by size es (asked size e s.resize) }),
    )

-- MPI calls the function of a slot on two vectors of as many elements, each of the size of the
-- datatype, which Marshal loads, the slot's procedure combines, and Marshal dumps. Then each element
-- of `inoutvec` becomes the dump of what the procedure returned for the two elements in its place,
-- with a NUL behind it, if that fits, and stays as it is otherwise; the slot's `resize` becomes the
-- room that the last dump needs that did not fit, and stays as it is if all fit.
pub op_fn_lem :
    (env : Env) (slot size : ℕ) (dtype : Datatype) (es : List Element) (s : OpSlot) (w : World)
    → get_elem? w.op_table slot ≡ some s
    → (env.reply w.log (Call.type_size dtype)).rv ≡ Code.success
    → (env.reply w.log (Call.type_size dtype)).out0 ≡ pos size
    → AllCombine env s.proc size es
    → op_fn env slot dtype (pack (λ e. e.given) es) (length es) (pack (λ e. e.kept) es) w ≡ (
      ok (pack (stored size) es),
      record w {
        log = Call.type_size dtype ∷ w.log;
        op_table = set w.op_table slot (record s { resize = asked_by size es s.resize });
      },
    )
unfolding op_fn
op_fn_lem env slot size dtype es s w hs good hsize hes = ground (
  arith,
  mpi_exception_success,
  for_elements-op_fn env slot size 0 [] [] es s (record w { log = Call.type_size dtype ∷ w.log })
      (omega arith) (omega arith) hs hes,
)
