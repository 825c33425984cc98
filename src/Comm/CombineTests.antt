-- ===== src/Comm/CombineTests.antt =====
-- `allreduce` of object 6 with a procedure that makes object 2 of it and of object 9.
use mpi_ruby.Base.{get_or, ◌≡◌, refl, pos, [], ◌∷◌, some}
use mpi_ruby.Ruby.{Value, ok}
use mpi_ruby.Mpi.{Call, Code, Reply, Env}
use mpi_ruby.State.{World}
use mpi_ruby.Samples.{fine, env_of, start_world}
use mpi_ruby.Op.{taken_by}
use mpi_ruby.Comm.Struct.{fresh_struct}
use mpi_ruby.Comm.Reduction.{Operand}
use mpi_ruby.Comm.Reduce.{Reduced, comm_allreduce}
use mpi_ruby.Comm.Rounds.{slot_op}
use mpi_ruby.Comm.Combine.{Reducing, allreduce_combines}

-- Every type has four bytes, and all processes pass the same `int`s.
abbrev gives : Call → Reply
gives (Call.type_size _) = record fine { out0 = pos 4 }
gives (Call.allreduce_int _ n _) = record fine { out0 = n }
gives _ = fine

abbrev combining : Env
combining = record (env_of (λ _ c. gives c)) {
  proc_call = λ _ _ _. ok (Value.object 2);
  delivered = λ _ _ outs. get_or outs 0 [];
  applied =
      λ _ _. record { invec = 4 ∷ 8 ∷ 10 ∷ 0 ∷ []; len = 1; inoutvec = 4 ∷ 8 ∷ 7 ∷ 0 ∷ [] } ∷ [];
}

abbrev six_and_nine : Reducing
six_and_nine = record {
  env = combining;
  mc = fresh_struct 91;
  handle = 7;
  k = 0;
  slot = taken_by (Value.object 5);
  obj = Value.object 6;
  partner = Value.object 9;
  result = Value.object 2;
  dump = 4 ∷ 8 ∷ 7 ∷ [];
  partner_dump = 4 ∷ 8 ∷ 10 ∷ [];
  result_dump = 4 ∷ 8 ∷ 3 ∷ [];
}

abbrev with_operation : World
with_operation = record start_world { op_table = taken_by (Value.object 5) ∷ [] }

allreduce_combines_example :
    (comm_allreduce 1 combining
      (fresh_struct 91)
      (pos 3)
      (pos 0)
      (Operand.single (Value.object 6))
      (slot_op combining 7 0)
      with_operation).0
    ≡ ok (some (Reduced.one (Value.object 2)))
allreduce_combines_example =
    allreduce_combines six_and_nine 3 0 (pos 0) with_operation
      (
        (λ log c. succeeds c),
        (λ log op i. refl),
        (λ log dtype. refl),
        (λ log dtype. refl),
        (λ log dtype out. refl),
        refl,
        refl,
        (refl, refl, refl, refl, refl, refl),
        refl,
        refl,
      )
      refl refl
  where
    succeeds : (c : Call) → (gives c).rv ≡ Code.success
    succeeds (Call.type_size _) = refl
    succeeds (Call.allreduce_int _ _ _) = refl
    succeeds _ = refl
