-- ===== src/Keyval.antt =====
-- mpi_keyval.c: key values, and the functions that MPI calls to copy and to delete an attribute. A
-- struct mpi_keyval is its `int`. `stray` is what `out->len` holds, which no statement sets.
pub mod Attributes
use mpi_ruby.Base.{ℕ, ℤ, pos, pos_part, succ, [], ◌∷◌, ◌++◌, length, get_elem?, none, some, cells}
use mpi_ruby.Ruby.{Value, ok, fault, Fault, truthy}
use mpi_ruby.Mpi.{Call, Env}
use mpi_ruby.State.{AttrVal, M, pure, ◌>>=◌, ◌>>◌, lift, call, checked}
use mpi_ruby.Op.Vector.{memcpy}

-- `ALLOC(struct mpi_attr_val)` and the writes to it, and a read of one.
abbrev pub new_attr : AttrVal → M ℕ
new_attr av w = (ok (length w.attrs), record w { attrs = w.attrs ++ (av ∷ []) })

abbrev pub load_attr : ℕ → M AttrVal
load_attr a w = elim (get_elem? w.attrs a) [
  | none ↦ (fault Fault.dangling, w)
  | some av ↦ (ok av, w)
]

-- What `keyval_copy` and `keyval_copy_uniq` share.
unfoldable pub copy_attr : Env → ℤ → ℕ → M ℕ
copy_attr env stray attr_in = do
  av ← load_attr attr_in
  lift (env.alloc_n (succ av.len))
  bs ← lift (memcpy (cells (pos_part (succ av.len)) env.junk_char []) 0 av.data_ (succ av.len))
  new_attr (record { len = stray; data_ = bs })

-- The address of the copy, and `*flag`.
unfoldable pub keyval_copy : Env → ℤ → ℕ → M (ℕ × ℤ)
keyval_copy env stray attr_in = do out ← copy_attr env stray attr_in; pure (out, pos 1)

unfoldable pub keyval_copy_uniq : Env → ℤ → ℕ → M (ℕ × ℤ)
keyval_copy_uniq env stray attr_in = do out ← copy_attr env stray attr_in; pure (out, pos 0)

-- The attribute that MPI passes is not read: `in` is an uninitialised pointer.
unfoldable pub keyval_delete : ℕ → M (Unit {0})
keyval_delete attr = lift (fault Fault.indeterminate)

-- The code of MPI_Keyval_free is not looked at.
unfoldable pub keyval_free : Env → ℤ → M (Unit {0})
keyval_free env keyval = do call env (Call.keyval_free keyval); pure tt

unfoldable pub keyval_create : Env → Value → M ℤ
keyval_create env uniq = do r ← checked env (Call.keyval_create (truthy uniq)); pure r.out0
