-- ===== src/Comm/ReduceTests.antt =====
-- mpi_comm.c: the reductions in a process where one round asks for room.
use mpi_ruby.Base.{◌≡◌, refl, pos, pos_part, List, [], ◌∷◌}
use mpi_ruby.Ruby.{Value, ok, fault, Fault}
use mpi_ruby.Mpi.{Call, Datatype, Reduction, Reply, Env}
use mpi_ruby.State.{World}
use mpi_ruby.Samples.{fine, env_of, start_world}
use mpi_ruby.Op.{taken_by}
use mpi_ruby.Comm.{CommStruct, fresh_struct}
use mpi_ruby.Exception.{mpi_exception, message}
use mpi_ruby.Op.{op_clear_resize, op_get_resize}
use mpi_ruby.Op.Vector.{chunk, memcpy, for_elements}
use mpi_ruby.Op.Callbacks.{op_fn, op_fn_element, load_element, proc_of, store_element}
use mpi_ruby.Comm.PointToPoint.{marshalled}
use mpi_ruby.Comm.Reduction.{
  Operand, same_lengths, reduce_with, local_length, fill, element_count, reduction, apply_all,
  array_length, fill_from, load_results, measure, refill, resize_loop, resize_round,
}
use mpi_ruby.Comm.Reduce.{comm_allreduce, load_everywhere, load_reduced}
use mpi_ruby.Comm.Rounds.{slot_op}

-- The handle of a type is its size, and the other `int`s are 1.
abbrev typed : List Call → Call → Reply
typed log (Call.type_contiguous n) = record fine { handle = pos_part n }
typed log (Call.type_size (Datatype.derived h)) = record fine { out0 = pos h }
typed log _ = record fine { out0 = pos 1; bytes = 4 ∷ 8 ∷ 7 ∷ 0 ∷ [] }

-- Every object has a dump of three bytes, and MPI applies the operation once in each reduction.
abbrev narrow : Env
narrow = record (env_of typed) {
  marshal_dump = λ _. ok (4 ∷ 8 ∷ 7 ∷ []);
  marshal_load = λ _. ok (Value.object 6);
  applied =
      λ _ _. record { invec = 4 ∷ 8 ∷ 7 ∷ 0 ∷ []; len = 1; inoutvec = 4 ∷ 8 ∷ 7 ∷ 0 ∷ [] } ∷ [];
}

abbrev mc : CommStruct
mc = fresh_struct 91

abbrev ready : World
ready = record start_world { op_table = taken_by (Value.object 5) ∷ [] }

-- The first type has two bytes, so that the first reduction asks for four. The second would read
-- them of a buffer of two.
allreduce_overruns :
    (comm_allreduce 2 narrow mc
      (pos 1)
      (pos 0)
      (Operand.single (Value.object 6))
      (slot_op narrow 7 0)
      ready).0
    ≡ fault Fault.out_of_bounds
unfolding comm_allreduce same_lengths mpi_exception message reduce_with local_length marshalled fill
    memcpy element_count reduction apply_all op_fn for_elements op_fn_element load_element chunk
    load_everywhere load_reduced array_length fill_from load_results measure refill resize_loop
    resize_round proc_of store_element op_clear_resize op_get_resize
allreduce_overruns = refl
