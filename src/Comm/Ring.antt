-- ===== src/Comm/Ring.antt =====
-- mpi_comm.c: a round of the ring of `comm_allgather`.
pub mod Places
use mpi_ruby.Base.{List, ℕ, ◌≡◌, ℤ, pos, [], ◌∷◌, ◌++◌, some, get_elem?, arith, succ}
use mpi_ruby.Ruby.{Bytes, ok}
use mpi_ruby.Mpi.{Call, Code, Datatype, Buffer, Env}
use mpi_ruby.Exception.Laws.{mpi_exception_success}
use mpi_ruby.State.{World}
use mpi_ruby.Comm.Struct.{CommStruct}
use mpi_ruby.Comm.PointToPoint.{received}
use mpi_ruby.Comm.Collective.{Strings, store_string, entry_cstr, allgather_round}

abbrev pub size_swap : CommStruct → ℤ → ℕ → ℕ → Call
size_swap mc stray left right =
    Call.sendrecv (Buffer.int_at stray) (pos 1) Datatype.mpi_int (pos right) (pos 43) (pos 1)
      Datatype.mpi_int (pos left) (pos 43) mc.comm

abbrev pub data_swap : CommStruct → ℤ → ℕ → ℕ → Bytes → ℤ → Call
data_swap mc stray left right out size =
    Call.sendrecv (Buffer.bytes_at (out ++ (0 ∷ []))) (succ stray) Datatype.mpi_byte (pos right)
      (pos 43) (succ size) Datatype.mpi_byte (pos left) (pos 43) mc.comm

-- What the second exchange of a round brings.
abbrev pub brought : Env → CommStruct → ℤ → ℕ → ℕ → Bytes → World → Bytes
brought env mc stray left right cstr w =
    let c₁ = size_swap mc stray left right in
    let n = (env.reply w.log c₁).out0 in
    received env n (env.reply (c₁ ∷ w.log) (data_swap mc stray left right cstr n)).bytes

abbrev pub swapped : Env → CommStruct → ℤ → ℕ → ℕ → Bytes → World → World
swapped env mc stray left right cstr w =
    let c₁ = size_swap mc stray left right in
    let n = (env.reply w.log c₁).out0 in
    record w { log = data_swap mc stray left right cstr n ∷ c₁ ∷ w.log }

pub allgather_round_lem :
    (env : Env) (mc : CommStruct) (stray : ℤ) (left right j jnext : ℕ) (ary : Strings)
    (str cstr : Bytes) (w : World)
    → ((log : List Call) (c : Call) → (env.reply log c).rv ≡ Code.success)
    → env.alloc_n (succ (env.reply w.log (size_swap mc stray left right)).out0) ≡ ok tt
    → get_elem? ary j ≡ some (some str)
    → env.string_value_cstr str ≡ ok cstr
    → allgather_round env mc stray left right j jnext ary w ≡ (
      ok (store_string ary jnext (brought env mc stray left right cstr w)),
      swapped env mc stray left right cstr w,
    )
unfolding allgather_round entry_cstr
allgather_round_lem env mc stray left right j jnext ary str cstr w good room h hc =
    let c₁ = size_swap mc stray left right in
    let n = (env.reply w.log c₁).out0 in
    ground (
      arith,
      mpi_exception_success,
      good w.log c₁,
      good (c₁ ∷ w.log) (data_swap mc stray left right cstr n),
      room,
    )
