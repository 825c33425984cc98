-- ===== src/Comm/ScatterTests.antt =====
-- The buffers of `scatter` and `alltoall` at concrete objects.
use mpi_ruby.Base.{ℕ, ◌≡◌, ◌*◌, ◌<◌, ◌++◌, arith, refl, pos, List, [], ◌∷◌, length}
use mpi_ruby.Ruby.{Value, Bytes, ok}
use mpi_ruby.Samples.{calm, env_of, fine, start_world}
use mpi_ruby.Mpi.{Call, Reply, Env}
use mpi_ruby.Comm.Reduction.{load_results}
use mpi_ruby.Comm.Scatter.{send_buffer, comm_alltoall}
use mpi_ruby.Comm.Alltoall.{Succeeds, alltoall_calls, comm_alltoall_reads_past}
use mpi_ruby.Comm.Unpacking.{load_results-send_buffer}

abbrev two_objects : List Value
two_objects = Value.object 6 ∷ Value.object 2 ∷ []

load_results-send_buffer_example :
    (send : Bytes) × (longest : ℕ) × (send_buffer calm (λ _. pos 3) two_objects start_world
      ≡ (ok (send, pos longest), start_world))
    × (length send ≡ length two_objects * longest)
    × (load_results calm longest send (length two_objects) 0 start_world
        ≡ (ok two_objects, start_world))
load_results-send_buffer_example =
    load_results-send_buffer calm (λ _. pos 3) two_objects
      ((4 ∷ 8 ∷ 7 ∷ []) ∷ (4 ∷ 8 ∷ 3 ∷ []) ∷ []) start_world
      (refl, refl, λ _. refl, (refl, refl, λ _. refl, tt)) (refl, (refl, tt))

-- Two processes, whose dumps have three bytes.
abbrev pair : Env
pair = env_of reply
  where
    reply : List Call → Call → Reply
    reply log (Call.comm_size comm) = record fine { out0 = pos 2 }
    reply log (Call.allreduce_int op n comm) = record fine { out0 = n }
    reply log c = fine

comm_alltoall_reads_past_example :
    (more : List Call) × (t : ℕ) × (send : Bytes) × ((comm_alltoall pair 91
        (λ _. pos 3)
        two_objects
        start_world).1.log
      ≡ more ++ (alltoall_calls 91 (length two_objects) (pos 4) t send (pos 4) ++ start_world.log))
    × (length send < length two_objects * (length two_objects * 4))
comm_alltoall_reads_past_example =
    comm_alltoall_reads_past pair 91 (λ _. pos 3) two_objects
      ((4 ∷ 8 ∷ 7 ∷ []) ∷ (4 ∷ 8 ∷ 3 ∷ []) ∷ []) 4 start_world succeeds (omega arith) refl
      (refl, refl, λ _. refl, (refl, refl, λ _. refl, tt)) (refl, (refl, tt)) refl (omega arith)
  where
    succeeds : Succeeds pair
    succeeds log (Call.comm_size comm) = refl
    succeeds log (Call.allreduce_int op n comm) = refl
    succeeds log c = refl
