-- ===== src/Comm/Args.antt =====
-- mpi_comm.c: how the arguments of a method become C values. The same lines stand in many methods.
use mpi_ruby.Base.{ℕ, ℤ, List, [], ◌∷◌, cells, map, if◌then◌else◌}
use mpi_ruby.Ruby.{Value, check_fixnum, is_any_tag, is_any_source, truthy, int_of_bool}
use mpi_ruby.Mpi.{Env}
use mpi_ruby.State.{◌>>=◌, ◌>>◌, M, pure, lift}

-- `Check_Type(v, T_FIXNUM); n = FIX2INT(v);`
unfoldable pub fixnum_arg : Env → Value → M ℤ
fixnum_arg env v = do lift (check_fixnum v); lift (env.fix2int v)

-- The same two in the other order, as some methods have them.
unfoldable pub fixnum_arg_late : Env → Value → M ℤ
fixnum_arg_late env v = do n ← lift (env.fix2int v); lift (check_fixnum v); pure n

-- `if (rtag == ANY_TAG) tag = MPI_ANY_TAG; else { ... }`
unfoldable pub tag_arg : Env → Value → M ℤ
unfolding fixnum_arg
tag_arg env rtag =
    let given = fixnum_arg env rtag in if is_any_tag rtag then pure env.mpi_any_tag else given

-- `if (rsrc == ANY_SOURCE) src = MPI_ANY_SOURCE; else { ... }`
unfoldable pub source_arg : Env → Value → M ℤ
unfolding fixnum_arg
source_arg env rsrc =
    let given = fixnum_arg env rsrc in if is_any_source rsrc then pure env.mpi_any_source else given

-- `for (i = 0; i < len; i++) a[i] = FIX2INT(rb_ary_entry(ary, i));` with `len` the Array's length.
unfoldable pub int_array : Env → List Value → M (List ℤ)
int_array env [] = pure []
int_array env (v ∷ vs) = do n ← lift (env.fix2int v); ns ← int_array env vs; pure (n ∷ ns)

-- The same with another bound: `rb_ary_entry` gives nil past the end.
abbrev pub entries : ℕ → List Value → List Value
entries n ary = cells n Value.qnil ary

-- `periods[i] = (v != Qfalse) && (v != Qnil);`
abbrev pub flags : List Value → List ℤ
flags = map (λ v. int_of_bool (truthy v))

-- `rb_fix_new` of each element.
abbrev pub fixnums : List ℤ → List Value
fixnums = map Value.fixnum
