-- ===== src/Request/Finalise.antt =====
-- mpi_request.c: the finaliser `request_free`, against what `request_new` and the list leave.
use mpi_ruby.Base.{
  ℕ, ◌≡◌, refl, some, none, ◌∷◌, [], ◌++◌, arith, get_elem?, get_elem?-set_over, length,
  get_elem?-append_length,
}
use mpi_ruby.Ruby.{ok, fault, Fault}
use mpi_ruby.Mpi.{Call, Code, Env}
use mpi_ruby.Exception.Laws.{mpi_exception_success}
use mpi_ruby.State.{Request, Entry, Buf, World}
use mpi_ruby.Request.Memory.{NewRequest, new_struct, request_new, request_free}
use mpi_ruby.Request.Poll.{poll_cell, poll_request}

-- For a request of type NORMAL `request_new` leaves `buf` as the memory from ALLOC holds it. The
-- finaliser of such a request frees that wild pointer: undefined behaviour, if MPI_Request_free
-- succeeds and ALLOC's memory holds no pointer that may be freed.
pub normal_finaliser_faults :
    (env : Env) (raw : Request) (req : ℕ) (w : World)
    → raw.buf ≡ Buf.wild
    → (env.reply w.log (Call.request_free req)).rv ≡ Code.success
    → (self : ℕ) × (w₁ : World) × (request_new raw (NewRequest.of_normal req) w ≡ (ok self, w₁))
      × ((request_free env self w₁).0 ≡ fault Fault.bad_free)
unfolding request_new new_struct request_free
normal_finaliser_faults env raw req w wild good =
    let mr : Request = new_struct raw (NewRequest.of_normal req) in
    (
      length w.heap,
      record w { heap = w.heap ++ (some mr ∷ []) },
      refl,
      ground (arith, get_elem?-append_length w.heap (some mr), mpi_exception_success, wild, good),
    )

-- The finaliser of a request leaves the list as it is: a request that is freed while cell `i` holds
-- it is read by the polling thread after its struct is gone.
pub freed_on_list_faults :
    (env : Env) (self i : ℕ) (mr : Request) (w w₁ : World)
    → get_elem? w.heap self ≡ some (some mr)
    → get_elem? w.rlist i ≡ some (Entry.entry self)
    → request_free env self w ≡ (ok tt, w₁)
    → (poll_cell env i w₁).0 ≡ fault Fault.dangling
unfolding request_free poll_cell poll_request
freed_on_list_faults env self i mr w w₁ here on_list freed =
    ground (arith, get_elem?-set_over w.heap self none here)
