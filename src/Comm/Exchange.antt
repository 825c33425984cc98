-- ===== src/Comm/Exchange.antt =====
-- mpi_comm.c: `comm_allgather` of two processes that exchange with each other.
use mpi_ruby.Base.{
  succ, ℕ, suc, ◌≡◌, refl, ap, sym, ◌∙◌, ℤ, pos, List, [], ◌∷◌, ◌++◌, none, some, length, cells,
  cells-length, length-append, arith,
}
use mpi_ruby.Ruby.{Value, Bytes, ok}
use mpi_ruby.Mpi.{Call, Code, Env}
use mpi_ruby.Exception.Laws.{mpi_exception_success}
use mpi_ruby.State.{World}
use mpi_ruby.Comm.Struct.{CommStruct}
use mpi_ruby.Comm.PointToPoint.{received}
use mpi_ruby.Comm.Collective.{store_string, allgather_from, load_all, comm_allgather}
use mpi_ruby.Comm.Ring.{size_swap, data_swap, brought, allgather_round_lem}
use mpi_ruby.Comm.Allgather.{ranked}

-- A process with its communicator and its object. `stray` is what its `length_right` holds.
pub record Process : Type 0 where
  pub env : Env
  pub mc : CommStruct
  pub stray : ℤ
  pub obj : Value
  pub dump : Bytes
  pub world : World

-- MPI succeeds, the dump is a C string, and the local variable that no statement
-- sets has its length. The process has the rank of two, and the other one has `other`.
abbrev pub Joins : ℕ → ℕ → Process → Type 0
Joins rank other p =
    ((log : List Call) (c : Call) → (p.env.reply log c).rv ≡ Code.success)
    × (p.env.marshal_dump p.obj ≡ ok p.dump)
    × (p.env.string_value_cstr p.dump ≡ ok p.dump)
    × (p.stray ≡ pos (length p.dump))
    × ((p.env.reply p.world.log (Call.comm_rank p.mc.comm)).out0 ≡ pos rank)
    × ((p.env.reply (Call.comm_rank p.mc.comm ∷ p.world.log) (Call.comm_size p.mc.comm)).out0
        ≡ pos 2)

-- The two calls of MPI_Sendrecv of `p` bring what the two of `q` send, and there is memory for it.
abbrev pub Gets : ℕ → Process → Process → Type 0
Gets other p q =
    let log = (ranked p.mc p.world).log in
    let sizes = size_swap p.mc p.stray other other in
    ((p.env.reply log sizes).out0 ≡ q.stray)
    × ((p.env.reply (sizes ∷ log) (data_swap p.mc p.stray other other p.dump q.stray)).bytes
        ≡ q.dump ++ (0 ∷ []))
    × (p.env.alloc_n (succ q.stray) ≡ ok tt)

-- Marshal.load reads a dump back, also with a character behind it.
abbrev pub Reads : Process → Process → Type 0
Reads p q =
    (p.env.marshal_load p.dump ≡ ok p.obj) × (p.env.marshal_load (q.dump ++ (0 ∷ [])) ≡ ok q.obj)

-- The string that the process gets is the other's dump with the NUL.
brought_lem :
    (other : ℕ) (p q : Process)
    → Gets other p q
    → q.stray ≡ pos (length q.dump)
    → brought p.env p.mc p.stray other other p.dump (ranked p.mc p.world) ≡ q.dump ++ (0 ∷ [])
brought_lem other p q (size, bytes, _) length_q =
    let log = (ranked p.mc p.world).log in
    let sizes = size_swap p.mc p.stray other other in
    let whole : length (q.dump ++ (0 ∷ [])) ≡ suc (length q.dump) =
      ground (arith, length-append q.dump (0 ∷ [])) in
    ap
      (λ n.
        received p.env n
          (p.env.reply (sizes ∷ log) (data_swap p.mc p.stray other other p.dump n)).bytes)
      size
    ∙ ap (received p.env q.stray) bytes
    ∙ ap (λ n. received p.env n (q.dump ++ (0 ∷ []))) length_q
    ∙ ap (λ n. cells n p.env.junk_char (q.dump ++ (0 ∷ []))) (sym whole)
    ∙ cells-length p.env.junk_char (q.dump ++ (0 ∷ []))

-- The result of the process with rank 0, and that of the one with rank 1.
allgather-first :
    (p q : Process)
    → Joins 0 1 p
    → Gets 1 p q
    → q.stray ≡ pos (length q.dump)
    → Reads p q
    → (comm_allgather p.env p.mc p.stray p.obj p.world).0 ≡ ok (p.obj ∷ q.obj ∷ [])
unfolding comm_allgather allgather_from load_all store_string
allgather-first p q (good, d, c, l, rank, size) gets length_q (own, others) =
    let bs = brought_lem 1 p q gets length_q in
    let read : p.env.marshal_load (brought p.env p.mc p.stray 1 1 p.dump (ranked p.mc p.world))
        ≡ ok q.obj =
      ap p.env.marshal_load bs ∙ others in
    ground (
      arith,
      mpi_exception_success,
      good p.world.log (Call.comm_rank p.mc.comm),
      good (Call.comm_rank p.mc.comm ∷ p.world.log) (Call.comm_size p.mc.comm),
      allgather_round_lem p.env p.mc p.stray 1 1 0 1 (some p.dump ∷ []) p.dump p.dump
          (ranked p.mc p.world) good (ap (λ n. p.env.alloc_n (succ n)) gets.0 ∙ gets.2) refl c,
      own,
      read,
    )

allgather-second :
    (p q : Process)
    → Joins 1 0 p
    → Gets 0 p q
    → q.stray ≡ pos (length q.dump)
    → Reads p q
    → (comm_allgather p.env p.mc p.stray p.obj p.world).0 ≡ ok (q.obj ∷ p.obj ∷ [])
unfolding comm_allgather allgather_from load_all store_string
allgather-second p q (good, d, c, l, rank, size) gets length_q (own, others) =
    let bs = brought_lem 0 p q gets length_q in
    let read : p.env.marshal_load (brought p.env p.mc p.stray 0 0 p.dump (ranked p.mc p.world))
        ≡ ok q.obj =
      ap p.env.marshal_load bs ∙ others in
    ground (
      arith,
      mpi_exception_success,
      good p.world.log (Call.comm_rank p.mc.comm),
      good (Call.comm_rank p.mc.comm ∷ p.world.log) (Call.comm_size p.mc.comm),
      allgather_round_lem p.env p.mc p.stray 0 0 1 0 (none ∷ some p.dump ∷ []) p.dump p.dump
          (ranked p.mc p.world) good (ap (λ n. p.env.alloc_n (succ n)) gets.0 ∙ gets.2) refl c,
      own,
      read,
    )

-- Two processes that call `allgather` with an object each, where each MPI_Sendrecv of the one
-- brings what that of the other sends, every call succeeds, there is memory for what arrives,
-- Marshal and StringValueCStr take the dumps, and `length_right` holds the length of the dump at both: both return the Array of the two
-- objects, in the order of their ranks.
pub allgather_agrees :
    (p q : Process)
    → Joins 0 1 p
    → Joins 1 0 q
    → Gets 1 p q
    → Gets 0 q p
    → Reads p q
    → Reads q p
    → ((comm_allgather p.env p.mc p.stray p.obj p.world).0 ≡ ok (p.obj ∷ q.obj ∷ []))
      × ((comm_allgather q.env q.mc q.stray q.obj q.world).0 ≡ ok (p.obj ∷ q.obj ∷ []))
allgather_agrees p q joins_p joins_q gets_p gets_q reads_p reads_q = (
  allgather-first p q joins_p gets_p joins_q.3 reads_p,
  allgather-second q p joins_q gets_q joins_p.3 reads_q,
)
