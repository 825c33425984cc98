-- ===== src/Comm/ExchangeTests.antt =====
-- mpi_comm.c: `allgather` of object 6 and object 9 at two processes.
use mpi_ruby.Base.{ℕ, ◌≡◌, refl, pos, [], ◌∷◌}
use mpi_ruby.Ruby.{Value, Bytes, ok}
use mpi_ruby.Mpi.{Call, Code, Reply}
use mpi_ruby.Samples.{env_of, fine, start_world}
use mpi_ruby.Comm.Struct.{fresh_struct}
use mpi_ruby.Comm.Collective.{comm_allgather}
use mpi_ruby.Comm.Exchange.{Process, allgather_agrees}

-- The MPI of a process with this rank, whose partner sends these bytes.
abbrev answers : ℕ → Bytes → Call → Reply
answers rank bs (Call.comm_rank _) = record fine { out0 = pos rank }
answers rank bs (Call.comm_size _) = record fine { out0 = pos 2 }
answers rank bs (Call.sendrecv _ _ _ _ _ _ _ _ _ _) = record fine { out0 = pos 3; bytes = bs }
answers rank bs _ = fine

abbrev rank_0 : Process
rank_0 = record {
  env = env_of (λ _ c. answers 0 (4 ∷ 8 ∷ 10 ∷ 0 ∷ []) c);
  mc = fresh_struct 91;
  stray = pos 3;
  obj = Value.object 6;
  dump = 4 ∷ 8 ∷ 7 ∷ [];
  world = start_world;
}

abbrev rank_1 : Process
rank_1 = record {
  env = env_of (λ _ c. answers 1 (4 ∷ 8 ∷ 7 ∷ 0 ∷ []) c);
  mc = fresh_struct 91;
  stray = pos 3;
  obj = Value.object 9;
  dump = 4 ∷ 8 ∷ 10 ∷ [];
  world = start_world;
}

allgather_agrees_example :
    ((comm_allgather rank_0.env (fresh_struct 91) (pos 3) (Value.object 6) start_world).0
      ≡ ok (Value.object 6 ∷ Value.object 9 ∷ []))
    × ((comm_allgather rank_1.env (fresh_struct 91) (pos 3) (Value.object 9) start_world).0
        ≡ ok (Value.object 6 ∷ Value.object 9 ∷ []))
allgather_agrees_example =
    allgather_agrees rank_0 rank_1
      ((λ log c. succeeds 0 (4 ∷ 8 ∷ 10 ∷ 0 ∷ []) c), refl, refl, refl, refl, refl)
      ((λ log c. succeeds 1 (4 ∷ 8 ∷ 7 ∷ 0 ∷ []) c), refl, refl, refl, refl, refl)
      (refl, refl, refl) (refl, refl, refl) (refl, refl) (refl, refl)
  where
    succeeds : (rank : ℕ) (bs : Bytes) (c : Call) → (answers rank bs c).rv ≡ Code.success
    succeeds rank bs (Call.comm_rank _) = refl
    succeeds rank bs (Call.comm_size _) = refl
    succeeds rank bs (Call.sendrecv _ _ _ _ _ _ _ _ _ _) = refl
    succeeds rank bs _ = refl
