-- ===== src/Comm/Broadcast.antt =====
-- mpi_comm.c: `comm_bcast` at the root and at a receiver.
use mpi_ruby.Base.{
  ℕ, suc, ◌≤◌, ◌≡◌, ℤ, pos, succ, eq_int, eq_int_refl, false, List, [], ◌∷◌, ◌++◌, length, take, ap,
  refl, zero, ◌<◌, cells, length-append, arith,
}
use mpi_ruby.Ruby.{Value, Bytes, ok}
use mpi_ruby.Mpi.{Call, Code, Datatype, Buffer, Reply, Env}
use mpi_ruby.Exception.Laws.{mpi_exception_success}
use mpi_ruby.State.{World}
use mpi_ruby.Comm.Struct.{CommStruct}
use mpi_ruby.Comm.PointToPoint.{marshalled}
use mpi_ruby.Comm.Collective.{comm_bcast}

-- The two broadcasts, with what the process has in its variables.
abbrev pub size_bcast : CommStruct → ℤ → ℤ → Call
size_bcast mc root stray = Call.bcast (Buffer.int_at stray) (pos 1) Datatype.mpi_int root mc.comm

abbrev pub data_bcast : CommStruct → ℤ → ℤ → Bytes → Call
data_bcast mc root length data_ =
    Call.bcast (Buffer.bytes_at data_) (succ length) Datatype.mpi_byte root mc.comm

-- What a receiver gets in the two.
abbrev pub bcast_size : Env → CommStruct → ℤ → ℤ → World → Reply
bcast_size env mc root stray w =
    env.reply (Call.comm_rank mc.comm ∷ w.log) (size_bcast mc root stray)

abbrev pub bcast_data : Env → CommStruct → ℤ → ℤ → ℕ → World → Reply
bcast_data env mc root stray k w =
    env.reply (size_bcast mc root stray ∷ Call.comm_rank mc.comm ∷ w.log)
      (data_bcast mc root (pos k) (cells (suc k) env.junk_char []))

-- The root returns the object that it was given, after it has broadcast what its variable `length`
-- holds, `k`, which no statement sets, and then `k + 1` bytes of the marshalled object.
comm_bcast-root :
    (env : Env) (mc : CommStruct) (k : ℕ) (root : ℤ) (obj rroot : Value) (dump str : Bytes)
    (w : World)
    → ((log : List Call) (c : Call) → (env.reply log c).rv ≡ Code.success)
    → env.fix2int rroot ≡ ok root
    → (env.reply w.log (Call.comm_rank mc.comm)).out0 ≡ root
    → env.marshal_dump obj ≡ ok dump
    → env.string_value_cstr dump ≡ ok str
    → comm_bcast env mc (pos k) obj rroot w ≡ (
      ok obj,
      record w {
        log =
            data_bcast mc root (pos k) (str ++ (0 ∷ []))
            ∷ size_bcast mc root (pos k)
            ∷ Call.comm_rank mc.comm
            ∷ w.log;
      },
    )
unfolding comm_bcast marshalled
comm_bcast-root env mc k root obj rroot dump str w good hr rank hd hs = ground (
  arith,
  eq_int_refl root,
  mpi_exception_success,
  good w.log (Call.comm_rank mc.comm),
  good (Call.comm_rank mc.comm ∷ w.log) (size_bcast mc root (pos k)),
  good (size_bcast mc root (pos k) ∷ Call.comm_rank mc.comm ∷ w.log)
      (data_bcast mc root (pos k) (str ++ (0 ∷ []))),
)

-- What is read of `n + 1` bytes that arrived are the first `n`.
cells-take-take : (n d : ℕ) (bs : Bytes) → n < length bs → cells n d (take (suc n) bs) ≡ take n bs
cells-take-take zero d bs h = refl
cells-take-take (suc n) d [] h = absurd (omega arith)
cells-take-take (suc n) d (b ∷ bs) h = ap (λ t. b ∷ t) (cells-take-take n d bs (omega arith))

comm_bcast-receiver :
    (env : Env) (mc : CommStruct) (stray : ℤ) (k : ℕ) (root rank : ℤ) (obj rroot : Value)
    (str : Bytes) (w : World)
    → ((log : List Call) (c : Call) → (env.reply log c).rv ≡ Code.success)
    → env.fix2int rroot ≡ ok root
    → (env.reply w.log (Call.comm_rank mc.comm)).out0 ≡ rank
    → eq_int rank root ≡ false
    → (bcast_size env mc root stray w).out0 ≡ pos k
    → (bcast_data env mc root stray k w).bytes ≡ take (suc k) (str ++ (0 ∷ []))
    → k ≤ length str
    → (comm_bcast env mc stray obj rroot w).0 ≡ env.marshal_load (take k (str ++ (0 ∷ [])))
unfolding comm_bcast
comm_bcast-receiver env mc stray k root rank obj rroot str w good hr h other hk hb le = ground (
  arith,
  mpi_exception_success,
  good w.log (Call.comm_rank mc.comm),
  good (Call.comm_rank mc.comm ∷ w.log) (size_bcast mc root stray),
  good (size_bcast mc root stray ∷ Call.comm_rank mc.comm ∷ w.log)
      (data_bcast mc root (pos k) (cells (suc k) env.junk_char [])),
  cells-take-take k env.junk_char (str ++ (0 ∷ [])) (ground (arith, length-append str (0 ∷ []))),
)

-- A root and a receiver call `bcast` with the same root, MPI succeeds at both, and the receiver gets
-- the two messages that the root's calls broadcast: `k`, which the root's variable `length` happens to
-- hold, at most the length of the text of the marshalled object, and the first `k + 1` bytes of that
-- text with its NUL. Then the root returns the object it was given, after these two calls, and the
-- receiver what Marshal.load makes of the first `k` bytes of the text.
pub comm_bcast_lem :
    (env env' : Env) (mc mc' : CommStruct) (k : ℕ) (stray root rank : ℤ) (obj obj' rroot : Value)
    (dump str : Bytes) (w w' : World)
    → k ≤ length str
    → ((log : List Call) (c : Call) → (env.reply log c).rv ≡ Code.success)
    → env.fix2int rroot ≡ ok root
    → (env.reply w.log (Call.comm_rank mc.comm)).out0 ≡ root
    → env.marshal_dump obj ≡ ok dump
    → env.string_value_cstr dump ≡ ok str
    → ((log : List Call) (c : Call) → (env'.reply log c).rv ≡ Code.success)
    → env'.fix2int rroot ≡ ok root
    → (env'.reply w'.log (Call.comm_rank mc'.comm)).out0 ≡ rank
    → eq_int rank root ≡ false
    → (bcast_size env' mc' root stray w').out0 ≡ pos k
    → (bcast_data env' mc' root stray k w').bytes ≡ take (suc k) (str ++ (0 ∷ []))
    → (comm_bcast env mc (pos k) obj rroot w ≡ (
      ok obj,
      record w {
        log =
            data_bcast mc root (pos k) (str ++ (0 ∷ []))
            ∷ size_bcast mc root (pos k)
            ∷ Call.comm_rank mc.comm
            ∷ w.log;
      },
    ))
      × ((comm_bcast env' mc' stray obj' rroot w').0 ≡ env'.marshal_load (take k (str ++ (0 ∷ []))))
comm_bcast_lem env env' mc mc' k stray root rank obj obj' rroot dump str w w' le good hr hroot hd hs
      good' hr' hrank ne hk hb =
    (
      comm_bcast-root env mc k root obj rroot dump str w good hr hroot hd hs,
      comm_bcast-receiver env' mc' stray k root rank obj' rroot str w' good' hr' hrank ne hk hb le,
    )
