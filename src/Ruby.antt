-- ===== src/Ruby.antt =====
-- The Ruby values and objects that the C files handle, and how a C function ends. A `VALUE` is its
-- tag with what the code reads of it; an Array is a list.
use mpi_ruby.Base.{
  ℕ, zero, suc, ℤ, pos, Bool, true, false, String, List, [], ◌∷◌, get_or, ◌≡◌, refl,
}

pub data Value : Type 0 where
  -- Qnil, Qtrue, Qfalse
  qnil qtrue qfalse : Value
  fixnum : ℤ → Value
  -- the constant objects MPI::UNDEFINED, ANY_TAG, ANY_SOURCE, GRAPH, CART
  undefined any_tag any_source graph cart : Value
  -- any other object, by its identity
  object : ℕ → Value

abbrev pub Bytes : Type 0
Bytes = List ℕ

-- What is raised: MPI::Exception with its message, TypeError, or another Ruby exception.
pub data RubyError : Type 0 where
  mpi_error : String → RubyError
  type_error : RubyError
  other : ℕ → RubyError

-- What C leaves undefined.
pub data Fault : Type 0 where
  null_pointer bad_free dangling indeterminate out_of_bounds unterminated : Fault

-- A C function returns, raises (`rb_raise` jumps out of it), or runs into undefined behaviour.
pub data Outcome {ℓ} (A : Type ℓ) : Type ℓ where
  ok : A → Outcome A
  raised : RubyError → Outcome A
  fault : Fault → Outcome A

-- `rb_ary_entry`: nil out of range.
abbrev pub rb_ary_entry : List Value → ℕ → Value
rb_ary_entry ary i = get_or ary i Value.qnil

-- `rb_ary_store`: an Array grows with nils up to the index.
pub rb_ary_store : List Value → ℕ → Value → List Value
rb_ary_store [] zero v = v ∷ []
rb_ary_store [] (suc i) v = Value.qnil ∷ rb_ary_store [] i v
rb_ary_store (x ∷ xs) zero v = v ∷ xs
rb_ary_store (x ∷ xs) (suc i) v = x ∷ rb_ary_store xs i v

-- `Check_Type(v, T_FIXNUM)`
abbrev pub check_fixnum : Value → Outcome (Unit {0})
check_fixnum (Value.fixnum _) = ok tt
check_fixnum _ = raised type_error

-- `(v != Qfalse) && (v != Qnil)`
abbrev pub truthy : Value → Bool
truthy Value.qnil = false
truthy Value.qfalse = false
truthy _ = true

-- `flag ? Qtrue : Qfalse`
abbrev pub rb_bool : Bool → Value
rb_bool true = Value.qtrue
rb_bool false = Value.qfalse

abbrev pub is_any_tag : Value → Bool
is_any_tag Value.any_tag = true
is_any_tag _ = false

abbrev pub is_any_source : Value → Bool
is_any_source Value.any_source = true
is_any_source _ = false

-- An `int` that a comparison yields.
abbrev pub int_of_bool : Bool → ℤ
int_of_bool true = pos 1
int_of_bool false = pos 0

-- An `int` as a condition.
abbrev pub is_nonzero : ℤ → Bool
is_nonzero (pos zero) = false
is_nonzero _ = true

pub is_nonzero_of_bool : (b : Bool) → is_nonzero (int_of_bool b) ≡ b
is_nonzero_of_bool true = refl
is_nonzero_of_bool false = refl
