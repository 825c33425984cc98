-- ===== src/Comm/Buffering.antt =====
-- mpi_comm.c: `buffer_for` and `unbuffer`, which change the struct behind `self`.
use mpi_ruby.Base.{ℕ, ◌+◌, ◌*◌, ℤ, pos, negsuc, [], Bool, true, false, length, cells, ltb}
use mpi_ruby.Ruby.{Value, Outcome, ok, raised, fault}
use mpi_ruby.Mpi.{Call, Env}
use mpi_ruby.Exception.{mpi_exception}
use mpi_ruby.State.{◌>>=◌, ◌>>◌, Buf, M, pure, lift, call, checked}
use mpi_ruby.Comm.Struct.{CommStruct}

-- `bufsize < n`
abbrev pub below : ℤ → ℕ → Bool
below (pos k) n = ltb k n
below (negsuc _) n = true

-- `array` is `ary` as an object, which Marshal.dump is given, and `count` the number of its
-- elements. REALLOC_N raises where ALLOC_N does; up to there a raise leaves the struct as it is. The
-- result is the struct as it stands afterwards, with how the call ends: MPI_Buffer_attach may fail
-- after the change.
unfoldable pub comm_buffer_for : Env → CommStruct → Value → ℕ → M (CommStruct × Outcome Value)
comm_buffer_for env mc array count = do
  dump ← lift (env.marshal_dump array)
  let size = length dump + env.int_size * count
  elim (below mc.bufsize size) [
    | false ↦ pure (mc, ok Value.qtrue)
    | true ↦ do
      checked env Call.buffer_detach
      lift (env.alloc_n (pos size))
      r ← call env (Call.buffer_attach (pos size))
      pure (
        record mc { buffer = Buf.owned (cells size env.junk_char []); bufsize = pos size },
        elim (mpi_exception r.rv) [
          | ok _ ↦ ok Value.qtrue
          | raised e ↦ raised e
          | fault f ↦ fault f
        ],
      )
  ]

unfoldable pub comm_unbuffer : Env → CommStruct → M (CommStruct × Value)
comm_unbuffer env mc = do
  checked env Call.buffer_detach
  pure (record mc { buffer = Buf.null; bufsize = pos 0 }, Value.qtrue)
