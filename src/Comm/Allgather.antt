-- ===== src/Comm/Allgather.antt =====
-- mpi_comm.c: `comm_allgather` as a whole.
use mpi_ruby.Base.{
  ℕ, suc, ◌+◌, ◌-◌, ◌%◌, ◌<◌, ◌≡◌, ℤ, pos, [], ◌∷◌, some, succ, List, get_elem?, arith,
}
use mpi_ruby.Ruby.{Value, Bytes, RubyError, ok, raised}
use mpi_ruby.Mpi.{Call, Code, Env}
use mpi_ruby.Exception.Laws.{mpi_exception_success}
use mpi_ruby.State.{World}
use mpi_ruby.Comm.Struct.{CommStruct}
use mpi_ruby.Comm.Collective.{
  Strings, store_string, entry_cstr, before, allgather_round, allgather_from, comm_allgather,
}
use mpi_ruby.Comm.Ring.Places.{get_elem?-store_string}
use mpi_ruby.Comm.Ring.{allgather_round_lem, brought, swapped, size_swap}

-- The state in which the ring starts.
abbrev pub ranked : CommStruct → World → World
ranked mc w = record w { log = Call.comm_size mc.comm ∷ Call.comm_rank mc.comm ∷ w.log }

round_refused :
    (env : Env) (mc : CommStruct) (stray : ℤ) (left right j jnext : ℕ) (ary : Strings) (bs : Bytes)
    (e : RubyError) (w : World)
    → get_elem? ary j ≡ some (some bs)
    → env.string_value_cstr bs ≡ raised e
    → (allgather_round env mc stray left right j jnext ary w).0 ≡ raised e
unfolding allgather_round entry_cstr
round_refused env mc stray left right j jnext ary bs e w h refused = ground arith

second_round_refused :
    (env : Env) (mc : CommStruct) (stray : ℤ) (csize left right k j : ℕ) (ary : Strings)
    (str cstr : Bytes) (e : RubyError) (w : World)
    → ((log : List Call) (c : Call) → (env.reply log c).rv ≡ Code.success)
    → env.alloc_n (succ (env.reply w.log (size_swap mc stray left right)).out0) ≡ ok tt
    → get_elem? ary j ≡ some (some str)
    → env.string_value_cstr str ≡ ok cstr
    → env.string_value_cstr (brought env mc stray left right cstr w) ≡ raised e
    → (allgather_from env mc stray csize left right (suc (suc k)) j ary w).0 ≡ raised e
unfolding allgather_from
second_round_refused env mc stray csize left right k j ary str cstr e w good room h hc refused =
    let j' = before csize j in
    let bs = brought env mc stray left right cstr w in
    ground (
      arith,
      allgather_round_lem env mc stray left right j j' ary str cstr w good room h hc,
      round_refused env mc stray left right j' (before csize j') (store_string ary j' bs) bs e
          (swapped env mc stray left right cstr w) (get_elem?-store_string ary j' bs) refused,
    )

-- With three processes or more `allgather` passes on strings that it received. If every call of MPI
-- succeeds and there is memory for the string that arrives in the first round, but StringValueCStr
-- refuses that string, as it refuses one with a NUL in it, then `allgather` raises that refusal.
pub allgather_relay_refused :
    (env : Env) (mc : CommStruct) (stray : ℤ) (obj : Value) (dump cstr : Bytes) (csize rank : ℕ)
    (e : RubyError) (w : World)
    → ((log : List Call) (c : Call) → (env.reply log c).rv ≡ Code.success)
    → env.alloc_n (
        succ
          (env.reply
            (ranked mc w).log
            (size_swap mc stray (before csize rank) ((rank + 1) % csize))).out0)
      ≡ ok tt
    → env.marshal_dump obj ≡ ok dump
    → env.string_value_cstr dump ≡ ok cstr
    → (env.reply w.log (Call.comm_rank mc.comm)).out0 ≡ pos rank
    → (env.reply (Call.comm_rank mc.comm ∷ w.log) (Call.comm_size mc.comm)).out0 ≡ pos csize
    → 2 < csize
    → env.string_value_cstr
        (brought env mc stray (before csize rank) ((rank + 1) % csize) cstr (ranked mc w))
      ≡ raised e
    → (comm_allgather env mc stray obj w).0 ≡ raised e
unfolding comm_allgather
allgather_relay_refused env mc stray obj dump cstr csize rank e w good room hd hc hr hs lt refused =
    let two : csize - 1 ≡ suc (suc (csize - 3)) = omega arith in
    ground (
      arith,
      two,
      mpi_exception_success,
      good w.log (Call.comm_rank mc.comm),
      good (Call.comm_rank mc.comm ∷ w.log) (Call.comm_size mc.comm),
      second_round_refused env mc stray csize (before csize rank) ((rank + 1) % csize) (csize - 3)
          rank (store_string [] rank dump) dump cstr e (ranked mc w) good room
          (get_elem?-store_string [] rank dump) hc refused,
    )
