-- ===== src/Keyval/Attributes.antt =====
-- mpi_comm.c: the attributes of a communicator. `stray` is what `av->len` holds, which no statement
-- sets. `av->data` points into the Ruby string of the dump, which is not kept from the garbage
-- collector; here it lives on.
use mpi_ruby.Base.{ℤ, pos, negsuc, true, false}
use mpi_ruby.Ruby.{Value, Bytes, Outcome, raised, is_nonzero}
use mpi_ruby.Mpi.{Call, Env}
use mpi_ruby.State.{M, pure, ◌>>=◌, ◌>>◌, lift, checked}
use mpi_ruby.Op.Vector.{chunk}
use mpi_ruby.Comm.{CommStruct}
use mpi_ruby.Comm.PointToPoint.{marshalled}
use mpi_ruby.Keyval.{new_attr, load_attr}

-- `rb_str_new(p, n)`
abbrev pub str_new : Env → Bytes → ℤ → Outcome Bytes
str_new env bs (negsuc _) = raised env.negative_size
str_new env bs (pos n) = chunk 0 n bs

unfoldable pub comm_attr_put : Env → CommStruct → ℤ → ℤ → Value → M Value
comm_attr_put env mc keyval stray obj = do
  bs ← marshalled env obj
  av ← new_attr (record { len = stray; data_ = bs })
  checked env (Call.attr_put mc.comm keyval av)
  pure Value.qtrue

unfoldable pub comm_attr_get : Env → CommStruct → ℤ → M Value
comm_attr_get env mc keyval = do
  r ← checked env (Call.attr_get mc.comm keyval)
  elim (is_nonzero r.out0) [
    | false ↦ pure Value.qnil
    | true ↦ do
      av ← load_attr r.handle
      str ← lift (str_new env av.data_ av.len)
      lift (env.marshal_load str)
  ]

unfoldable pub comm_attr_delete : Env → CommStruct → ℤ → M Value
comm_attr_delete env mc keyval = do checked env (Call.attr_delete mc.comm keyval); pure Value.qtrue
