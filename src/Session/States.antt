-- ===== src/Session/States.antt =====
-- mpi_request.c: what holds of the list and of the polling thread in every state that a program can
-- reach.
use mpi_ruby.Base.{
  ℕ, zero, suc, ◌≡◌, ◌≢◌, refl, ◌∙◌, true, List, [], ◌∷◌, none, some, get_elem?, get_elem?-lt,
  arith,
}
use mpi_ruby.Ruby.{Value, ok, is_nonzero}
use mpi_ruby.Mpi.{Call, Code, Env}
use mpi_ruby.State.{Request, ReqType, Entry, World}
use mpi_ruby.Request.Lifecycle.{awaits_size, request_test}
use mpi_ruby.Request.Poll.{request_thread_round}
use mpi_ruby.Request.Refines.{IsWritten, Sound}
use mpi_ruby.Request.Drain.{Arrives}
use mpi_ruby.Request.Round.{request_thread_round-drains}
use mpi_ruby.Request.Discipline.{Postable}
use mpi_ruby.Request.Tidy.{HasMemory, IsSize, memory_for}
use mpi_ruby.Session.Step.{Reached}
use mpi_ruby.Session.Invariant.{Sane-Reached}

-- The struct of a receive has not been freed, its buffer may be, and its length is a size.
abbrev pub ReceiveAt : ℕ → World → Type 0
ReceiveAt a w =
    (mr : Request) × (get_elem? w.heap a ≡ some (some mr))
    × (mr.type ≡ ReqType.receive)
    × Postable IsSize mr

abbrev pub AllReceive : List Entry → World → Type 0
AllReceive [] w = Unit
AllReceive (Entry.entry a ∷ cells) w = ReceiveAt a w × AllReceive cells w
AllReceive (Entry.empty ∷ cells) w = AllReceive cells w
AllReceive (Entry.unwritten ∷ cells) w = AllReceive cells w

all_receive :
    (cells : List Entry) (w : World)
    → ((k a : ℕ) → get_elem? cells k ≡ some (Entry.entry a) → ReceiveAt a w)
    → AllReceive cells w
all_receive [] w each = tt
all_receive (Entry.entry a ∷ cells) w each =
    (each 0 a refl, all_receive cells w (λ k b at. each (suc k) b at))
all_receive (Entry.empty ∷ cells) w each = all_receive cells w (λ k b at. each (suc k) b at)
all_receive (Entry.unwritten ∷ cells) w each = all_receive cells w (λ k b at. each (suc k) b at)

-- What a cell of the list of a reachable state has.
cell-ReceiveAt :
    (env : Env) (w₀ w : World) (k a : ℕ)
    → HasMemory env
    → w₀.heap ≡ []
    → Reached env w₀ w
    → get_elem? w.rlist k ≡ some (Entry.entry a)
    → ReceiveAt a w
cell-ReceiveAt env w₀ w k a memory none_yet reached at =
    let (types, (kinds, listed, written, full, fits, live)) =
      Sane-Reached env memory w₀ w none_yet reached in
    let (receive, (mr, h)) = listed k a at in
    let (t, free) = kinds a mr h in (mr, h, t ∙ receive, free receive)

-- In every state that a program can reach by the steps of Session.Step, from the list that
-- `Init_Request` makes, with no request before, where ALLOC_N has memory for every number of bytes
-- below 2 ^ 31 and each length that arrives is at least 0 and at most 2 ^ 31 - 2: `capacity` is the
-- length of the list, every cell of it is NULL or has a request, and each such request is a receive
-- whose struct has not been freed, whose buffer may be, and whose length is in that range. In such
-- a program `irecv` and `start` are called with a free cell, the finaliser runs for requests that
-- are not on the list, and no communicator that a request uses is finalised; every other method,
-- and the polling thread, runs in any order.
pub session_list-Sound :
    (env : Env) (w₀ w : World)
    → HasMemory env
    → w₀.heap ≡ []
    → Reached env w₀ w
    → Sound w × AllReceive w.rlist w
session_list-Sound env w₀ w memory none_yet reached =
    let (types, (kinds, listed, written, full, fits, live)) =
      Sane-Reached env memory w₀ w none_yet reached in
    (
      (written, full),
      all_receive w.rlist w (λ k a at. cell-ReceiveAt env w₀ w k a memory none_yet reached at),
    )

-- Every test of MPI succeeds and finds its receive complete.
abbrev pub AllArrived : Env → Type 0
AllArrived now =
    ((log : List Call) (handle : ℕ) → (now.reply log (Call.test handle)).rv ≡ Code.success)
    × ((log : List Call) (handle : ℕ) → is_nonzero (now.reply log (Call.test handle)).out0 ≡ true)

no_unwritten : (xs : List Entry) → IsWritten xs → (j : ℕ) → get_elem? xs j ≢ some Entry.unwritten
no_unwritten [] h j e = cc
no_unwritten (Entry.empty ∷ xs) h zero e = cc
no_unwritten (Entry.entry _ ∷ xs) h zero e = cc
no_unwritten (Entry.unwritten ∷ xs) h j e = absurd h
no_unwritten (Entry.empty ∷ xs) h (suc j) e = no_unwritten xs h j e
no_unwritten (Entry.entry _ ∷ xs) h (suc j) e = no_unwritten xs h j e

-- In every state that a program can reach by the steps of Session.Step, from the list that
-- `Init_Request` makes, with no request before, where ALLOC_N has memory for every number of bytes
-- below 2 ^ 31, each length that arrives is at least 0 and at most 2 ^ 31 - 2, and no communicator
-- that a request uses is finalised: once the tests of the pending receives succeed with their flags
-- set (in the environment `now`, with memory and lengths as before), a round of the polling thread
-- returns. For each cell with a receive that awaits its size, in whichever order they
-- stand on the list: `test` of it answered `[false, nil]` and left the state as it was; after the
-- round the cell is empty, and `test` asks MPI about the receive.
pub session_round-drains :
    (env now : Env) (k a : ℕ) (mr : Request) (w₀ w : World)
    → HasMemory env
    → w₀.heap ≡ []
    → Reached env w₀ w
    → HasMemory now
    → AllArrived now
    → get_elem? w.rlist k ≡ some (Entry.entry a)
    → get_elem? w.heap a ≡ some (some mr)
    → awaits_size mr ≡ true
    → (request_test now a w ≡ (ok (Value.qfalse, none), w))
      × ((request_thread_round now w).0 ≡ ok tt)
      × (get_elem? (request_thread_round now w).1.rlist k ≡ some Entry.empty)
      × ((handle : ℕ) × ((request_test now a (request_thread_round now w).1).1.log
            ≡ Call.test handle ∷ (request_thread_round now w).1.log))
session_round-drains env now k a mr w₀ w memory none_yet reached memory' arrived at h awaits =
    let arrives : Arrives now =
      (arrived.0, arrived.1, λ log c n e. memory_for now n memory' (memory'.1 log c n e)) in
    let ((written, full), _) = session_list-Sound env w₀ w memory none_yet reached in
    request_thread_round-drains now k a mr w arrives
      (λ j b at_j.
        let (m, hm, _, ready) = cell-ReceiveAt env w₀ w j b memory none_yet reached at_j in
        (m, hm, (ready.0, memory_for now m.buflen memory' ready.1)))
      (omega (arith, full)) (no_unwritten w.rlist written)
      (omega (arith, full, get_elem?-lt w.rlist k at)) at h awaits
