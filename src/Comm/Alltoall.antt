-- ===== src/Comm/Alltoall.antt =====
-- mpi_comm.c: what `comm_alltoall` asks MPI to send, and what its send buffer has.
use mpi_ruby.Base.{
  ℕ, zero, suc, ◌*◌, ◌≤◌, ◌<◌, ◌≡◌, refl, ap, ◌∙◌, ℤ, pos, List, [], ◌∷◌, ◌++◌, length, cells,
  arith,
}
use mpi_ruby.Ruby.{Value, Bytes, ok}
use mpi_ruby.Mpi.{Call, Code, IntOp, Env}
use mpi_ruby.Exception.Laws.{mpi_exception_success}
use mpi_ruby.State.{World, M, pure, ◌>>=◌, ◌>>◌, lift, checked}
use mpi_ruby.State.Keeps.{Keeps, Keeps-then, Keeps-checked}
use mpi_ruby.Op.Vector.{chunk}
use native.Mathlib.Nat.{mul-lt-mul_of_pos_left, mul-le-mul_right}
use mpi_ruby.Comm.Reduction.{load_results}
use mpi_ruby.Comm.Scatter.{send_buffer, comm_alltoall}
use mpi_ruby.Comm.Packing.{
  Dumps, Lengths, longest_of, packed, length-packed, longest_of-Shorter, send_buffer-packed,
  Dumps-length,
}

-- Every call of MPI reports success.
abbrev pub Succeeds : Env → Type 0
Succeeds env = (log : List Call) (c : Call) → (env.reply log c).rv ≡ Code.success

-- The calls that `comm_alltoall` makes up to MPI_Alltoall, newest first.
abbrev pub alltoall_calls : ℕ → ℕ → ℤ → ℕ → Bytes → ℤ → List Call
alltoall_calls comm n longest t send size =
    Call.alltoall send (pos n) t comm
    ∷ Call.type_commit t
    ∷ Call.type_contiguous size
    ∷ Call.allreduce_int IntOp.max longest comm
    ∷ Call.comm_size comm
    ∷ []

-- The end of `comm_alltoall`.
abbrev alltoall_rest : Env → ℕ → ℕ → Bytes → ℕ → M (List Value)
alltoall_rest env n size recv t = do
  rary ← load_results env size recv n 0
  checked env (Call.type_free t)
  pure rary

-- Calls are added to a log.
abbrev Extends : List Call → World → Type 0
Extends log w = (more : List Call) × (w.log ≡ more ++ log)

Extends-load_results :
    (env : Env) (size : ℕ) (recv : Bytes) (log : List Call) (n i : ℕ)
    → Keeps (Extends log) (load_results env size recv n i)
unfolding load_results
Extends-load_results env size recv log zero i = λ w p. p
Extends-load_results env size recv log (suc n) i =
    let last : Value → List Value → M (List Value) = λ obj objs. pure (obj ∷ objs) in
    let second : Value → M (List Value) =
      λ obj. load_results env size recv n (suc i) >>= last obj in
    let first : Bytes → M (List Value) = λ str. lift (env.marshal_load str) >>= second in
    Keeps-then (Extends log) (lift (chunk (i * size) size recv)) first (λ w p. p)
      λ str.
        Keeps-then (Extends log) (lift (env.marshal_load str)) second (λ w p. p)
          λ obj.
            Keeps-then (Extends log) (load_results env size recv n (suc i)) (last obj)
              (Extends-load_results env size recv log n (suc i)) (λ objs w p. p)

alltoall_rest-Extends :
    (env : Env) (n size : ℕ) (recv : Bytes) (t : ℕ) (log : List Call)
    → Keeps (Extends log) (alltoall_rest env n size recv t)
alltoall_rest-Extends env n size recv t log =
    let rest : List Value → M (List Value) = λ rary. checked env (Call.type_free t) >> pure rary in
    Keeps-then (Extends log) (load_results env size recv n 0) rest
      (Extends-load_results env size recv log n 0)
      λ rary.
        Keeps-then (Extends log) (checked env (Call.type_free t)) (λ _. pure rary)
          (Keeps-checked (Extends log) env (Call.type_free t)
            (λ c w (more, e). (c ∷ more, ap (λ l. c ∷ l) e)))
          (λ _ w p. p)

comm_alltoall-calls :
    (env : Env) (comm : ℕ) (lengths : ℕ → ℤ) (sary : List Value) (send : Bytes) (longest size : ℕ)
    → (w : World) → Succeeds env
    → (env.reply w.log (Call.comm_size comm)).out0 ≡ pos (length sary)
    → ((w' : World) → send_buffer env lengths sary w' ≡ (ok (send, pos longest), w'))
    → (env.reply
        (Call.comm_size comm ∷ w.log)
        (Call.allreduce_int IntOp.max (pos longest) comm)).out0
      ≡ pos size
    → (t : ℕ) × (r : Bytes) × (w' : World) × (w'.log
        ≡ alltoall_calls comm (length sary) (pos longest) t send (pos size) ++ w.log)
      × (comm_alltoall env comm lengths sary w ≡ alltoall_rest env (length sary) size r t w')
unfolding comm_alltoall
comm_alltoall-calls env comm lengths sary send longest size w good n made global =
    let log₁ = Call.comm_size comm ∷ w.log in
    let log₂ = Call.allreduce_int IntOp.max (pos longest) comm ∷ log₁ in
    let t = (env.reply log₂ (Call.type_contiguous (pos size))).handle in
    let log₃ = Call.type_contiguous (pos size) ∷ log₂ in
    let log₄ = Call.type_commit t ∷ log₃ in
    let c = Call.alltoall send (pos (length sary)) t comm in
    (
      t,
      cells (length sary * size) env.junk_char (env.reply log₄ c).bytes,
      record w { log = c ∷ log₄ },
      refl,
      ground (
        arith,
        n,
        made (record w { log = log₁ }),
        global,
        mpi_exception_success,
        good w.log (Call.comm_size comm),
        good log₁ (Call.allreduce_int IntOp.max (pos longest) comm),
        good log₂ (Call.type_contiguous (pos size)),
        good log₃ (Call.type_commit t),
        good log₄ c,
      ),
    )

-- More elements than there are: `n` for each of `n` processes, of `size` bytes each.
more_than_sent :
    (n longest size : ℕ) → 2 ≤ n → 0 < longest → longest ≤ size → n * longest < n * (n * size)
more_than_sent n longest size two pos_longest le =
    mul-lt-mul_of_pos_left (omega (arith, two, pos_longest, le, mul-le-mul_right size two))
      (omega (arith, two))

longest_of_pos : (ss : List Bytes) → 0 < length ss → 0 < longest_of 0 ss
longest_of_pos [] h = absurd (omega (arith, h))
longest_of_pos (s ∷ ss) h = let lt = (longest_of-Shorter 0 (s ∷ ss)).0 in omega (arith, lt)

-- When MPI succeeds, two processes or more exchange objects, the length fields hold the lengths of
-- the dumps, and the longest dump of all is not shorter than those of this process, `alltoall` makes
-- a type of `size` bytes and asks MPI to send as many elements of it to each process as there are
-- processes. Its send buffer has fewer bytes than that.
pub comm_alltoall_reads_past :
    (env : Env) (comm : ℕ) (lengths : ℕ → ℤ) (sary : List Value) (ss : List Bytes) (size : ℕ)
    → (w : World) → Succeeds env
    → 2 ≤ length sary
    → (env.reply w.log (Call.comm_size comm)).out0 ≡ pos (length sary)
    → Dumps env sary ss
    → Lengths lengths 0 ss
    → (env.reply
        (Call.comm_size comm ∷ w.log)
        (Call.allreduce_int IntOp.max (pos (longest_of 0 ss)) comm)).out0
      ≡ pos size
    → longest_of 0 ss ≤ size
    → (more : List Call) × (t : ℕ) × (send : Bytes) × ((comm_alltoall env comm lengths sary w).1.log
        ≡ more
          ++ (alltoall_calls comm (length sary) (pos (longest_of 0 ss)) t send (pos size) ++ w.log))
      × (length send < length sary * (length sary * size))
comm_alltoall_reads_past env comm lengths sary ss size w good two n d l global le =
    let longest = longest_of 0 ss in
    let send = packed longest env.junk_char ss in
    let same = Dumps-length env sary ss d in
    let (t, r, w', logged, run) =
      comm_alltoall-calls env comm lengths sary send longest size w good n
        (λ w'. send_buffer-packed env lengths sary ss w' d l) global in
    let (more, e) = alltoall_rest-Extends env (length sary) size r t w'.log w' ([], refl) in
    (
      more,
      t,
      send,
      ap (λ x. x.1.log) run ∙ e ∙ ap (λ x. more ++ x) logged,
      omega (
        arith,
        length-packed longest env.junk_char ss (longest_of-Shorter 0 ss)
            ∙ ap (λ k. k * longest) same,
        more_than_sent (length sary) longest size two (longest_of_pos ss (omega (arith, two, same)))
            le,
      ),
    )
