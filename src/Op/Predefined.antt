-- ===== src/Op/Predefined.antt =====
-- mpi_op.c: what the predefined reductions that compute an object do to a vector. Each of SUM, PROD,
-- LAND, BAND, LOR, BOR, LXOR and BXOR is `predef_fn` with its own way to combine two objects.
use mpi_ruby.Base.{
  ℕ, suc, ◌*◌, ◌≤◌, ◌≡◌, refl, ℤ, pos, List, [], ◌∷◌, ◌++◌, some, length, take, drop, get_elem?,
  set, if◌then◌else◌, ltb, Bool-cases, inl, inr, length-append, length-take, drop-append_le,
  length-drop, get_elem?-set_over, set-set, set_same, arith, append_assoc,
}
use mpi_ruby.Ruby.{Value, Bytes, Outcome, ok}
use mpi_ruby.Mpi.{Call, Code, Datatype, Env}
use mpi_ruby.Exception.Laws.{mpi_exception_success}
use mpi_ruby.State.{World, OpSlot}
use mpi_ruby.Op.Vector.{for_elements, memcpy-take}
use mpi_ruby.Op.Callbacks.{store_element, predef_element, predef_fn}
use mpi_ruby.Op.Elementwise.{Element, pack, with_resize, load_element-append}

-- As `Combines`, with `dump` as the C string; the `k + 1` bytes that are copied are within it.
abbrev pub Computes : Env → (Value → Value → Outcome Value) → ℕ → ℕ → Element → Type 0
Computes env combine k size e =
    (length e.given ≡ size)
    × (length e.kept ≡ size)
    × (env.marshal_load e.given ≡ ok e.arg1)
    × (env.marshal_load e.kept ≡ ok e.arg2)
    × (combine e.arg1 e.arg2 ≡ ok e.obj)
    × ((str : Bytes) × (env.marshal_dump e.obj ≡ ok str) × (env.string_value_cstr str ≡ ok e.dump))
    × (k ≤ length e.dump)

abbrev pub AllCompute : Env → (Value → Value → Outcome Value) → ℕ → ℕ → List Element → Type 0
AllCompute env combine k size [] = Unit
AllCompute env combine k size (e ∷ es) =
    Computes env combine k size e × AllCompute env combine k size es

-- The element afterwards: its head is overwritten by `k + 1` bytes, if they fit.
abbrev pub patched : ℕ → ℕ → Element → Bytes
patched k size e =
    if ltb k size then take (suc k) (e.dump ++ (0 ∷ [])) ++ drop (suc k) e.kept else e.kept

abbrev pub wanted : ℕ → ℕ → List Element → ℤ → ℤ
wanted k size [] r = r
wanted k size (_ ∷ _) r = if ltb k size then r else pos (suc k)

length-patched :
    (k size : ℕ) (e : Element)
    → length e.kept ≡ size
    → k ≤ length e.dump
    → length (patched k size e) ≡ size
length-patched k size e hk le = ground (
  arith,
  length-append (take (suc k) (e.dump ++ (0 ∷ []))) (drop (suc k) e.kept),
  length-append e.dump (0 ∷ []),
  length-take (suc k) (e.dump ++ (0 ∷ [])),
  length-drop (suc k) e.kept,
)

store_element-patched :
    (env : Env) (k size i : ℕ) (pre rest : Bytes) (e : Element) (s : OpSlot) (w : World)
    → length pre ≡ i * size
    → length e.kept ≡ size
    → k ≤ length e.dump
    → get_elem? w.op_table 0 ≡ some s
    → store_element 0 size i (pos k) (e.dump ++ (0 ∷ [])) (pre ++ (e.kept ++ rest)) w ≡ (
      ok (pre ++ (patched k size e ++ rest)),
      with_resize 0 s (wanted k size (e ∷ []) s.resize) w,
    )
unfolding store_element
store_element-patched env k size i pre rest e s w hp hk le hs = elim (Bool-cases (ltb k size)) [
  | inl h ↦ ground (
    arith,
    memcpy-take (suc k) pre (e.dump ++ (0 ∷ [])) (e.kept ++ rest),
    length-append e.dump (0 ∷ []),
    length-append e.kept rest,
    drop-append_le (suc k) e.kept rest,
    append_assoc (take (suc k) (e.dump ++ (0 ∷ []))) (drop (suc k) e.kept) rest,
    set_same w.op_table 0 s hs,
  )
  | inr h ↦ ground arith
]

predef_element-append :
    (env : Env) (combine : Value → Value → Outcome Value) (k size i : ℕ)
    (before pre rest rest' : Bytes) (e : Element) (s : OpSlot) (w : World)
    → length before ≡ i * size
    → length pre ≡ i * size
    → get_elem? w.op_table 0 ≡ some s
    → Computes env combine k size e
    → predef_element env
        (pos k)
        combine
        size
        (before ++ (e.given ++ rest'))
        i
        (pre ++ (e.kept ++ rest))
        w
      ≡ (
        ok (pre ++ (patched k size e ++ rest)),
        with_resize 0 s (wanted k size (e ∷ []) s.resize) w,
      )
unfolding predef_element
predef_element-append env combine k size i before pre rest rest' e s w hb hp hs
      (lg, lk, x, y, o, (str, d, c), le) =
    ground (
      arith,
      load_element-append env size i before e.given rest' e.arg1 w hb lg x,
      load_element-append env size i pre e.kept rest e.arg2 w hp lk y,
      store_element-patched env k size i pre rest e s w hp lk le hs,
    )

for_elements-predef :
    (env : Env) (combine : Value → Value → Outcome Value) (k size i : ℕ) (before pre : Bytes)
    (es : List Element) (s : OpSlot) (w : World)
    → length before ≡ i * size
    → length pre ≡ i * size
    → get_elem? w.op_table 0 ≡ some s
    → AllCompute env combine k size es
    → for_elements
        (length es)
        i
        (predef_element env (pos k) combine size (before ++ pack (λ e. e.given) es))
        (pre ++ pack (λ e. e.kept) es)
        w
      ≡ (ok (pre ++ pack (patched k size) es), with_resize 0 s (wanted k size es s.resize) w)
unfolding for_elements
for_elements-predef env combine k size i before pre [] s w hb hp hs hes =
    ground (arith, set_same w.op_table 0 s hs)
for_elements-predef env combine k size i before pre (e ∷ es) s w hb hp hs (he, hes) =
    let s₁ : OpSlot = record s { resize = wanted k size (e ∷ []) s.resize } in
    ground (
      arith,
      predef_element-append env combine k size i before pre (pack (λ e. e.kept) es)
          (pack (λ e. e.given) es) e s w hb hp hs he,
      for_elements-predef env combine k size (suc i) (before ++ e.given) (pre ++ patched k size e)
          es s₁ (with_resize 0 s s₁.resize w) (ground (arith, length-append before e.given))
          (ground (arith, length-append pre (patched k size e), length-patched k size e he.1 he.6))
          (get_elem?-set_over w.op_table 0 s₁ hs) hes,
      append_assoc before e.given (pack (λ e. e.given) es),
      append_assoc pre (patched k size e) (pack (λ e. e.kept) es),
      append_assoc pre (patched k size e) (pack (patched k size) es),
      set-set w.op_table 0 s₁ (record s { resize = wanted k size es s₁.resize }),
      wanted_idem es s.resize,
    )
  where
    wanted_idem :
        (es : List Element) (r : ℤ)
        → wanted k size es (wanted k size (e ∷ []) r) ≡ wanted k size (e ∷ []) r
    wanted_idem [] r = refl
    wanted_idem (_ ∷ _) r = ground arith

-- A predefined reduction that computes objects, on vectors whose elements Marshal loads, Ruby
-- combines, and Marshal dumps, while its variable `length`, which no statement sets, holds `k`, at
-- most the length of each dump. If `k + 1` bytes fit into an element, the first `k + 1` bytes of
-- each dump with its NUL overwrite the head of the element. If not, `inoutvec` stays as it is, and
-- unless it has no element, slot 0 of the table, which belongs to another operation, gets `k + 1` as
-- its `resize`.
pub predef_fn_lem :
    (env : Env) (combine : Value → Value → Outcome Value) (k size : ℕ) (dtype : Datatype)
    (es : List Element) (s : OpSlot) (w : World)
    → get_elem? w.op_table 0 ≡ some s
    → (env.reply w.log (Call.type_size dtype)).rv ≡ Code.success
    → (env.reply w.log (Call.type_size dtype)).out0 ≡ pos size
    → AllCompute env combine k size es
    → predef_fn env
        (pos k)
        combine
        dtype
        (pack (λ e. e.given) es)
        (length es)
        (pack (λ e. e.kept) es)
        w
      ≡ (
        ok (pack (patched k size) es),
        record w {
          log = Call.type_size dtype ∷ w.log;
          op_table = set w.op_table 0 (record s { resize = wanted k size es s.resize });
        },
      )
unfolding predef_fn
predef_fn_lem env combine k size dtype es s w hs good hsize hes = ground (
  arith,
  mpi_exception_success,
  for_elements-predef env combine k size 0 [] [] es s
      (record w { log = Call.type_size dtype ∷ w.log }) (omega arith) (omega arith) hs hes,
)
