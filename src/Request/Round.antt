-- ===== src/Request/Round.antt =====
-- mpi_request.c: a whole round of the polling thread, and what `test` answers before and after.
use mpi_ruby.Base.{
  ◌⊎◌, ℕ, zero, suc, ◌+◌, ◌<◌, ◌≤◌, ◌≡◌, ◌≢◌, refl, ap, sym, ◌∙◌, true, List, [], ◌∷◌, some, none,
  length, get_elem?, set, get_elem?-set_over, get_elem?-set_self, subst, get_elem?-set_ne, set_same,
  length-set, ◌==◌, Bool-cases, inl, inr, arith,
}
use mpi_ruby.Ruby.{Value, ok}
use mpi_ruby.Mpi.{Call, Env}
use mpi_ruby.State.{Request, Stage, Entry, World}
use mpi_ruby.Request.Lifecycle.{awaits_size, with_size, request_test}
use mpi_ruby.Request.Receive.Steps.{data_receive, with_receive}
use mpi_ruby.Request.Poll.{poll_cell, poll_from, request_thread_round}
use mpi_ruby.Request.Drain.{
  Allocates, Arrives, Postable-with_size, Pollable, InData, Polls, moved_on-lem, InData-stored,
  Pollable-stored,
}

poll_cell-entry :
    (env : Env) (k a : ℕ) (w : World)
    → Arrives env
    → Pollable env w
    → get_elem? w.rlist k ≡ some (Entry.entry a)
    → (w' : World) × (poll_cell env k w ≡ (ok tt, w')) × Polls env k w w'
unfolding poll_cell
poll_cell-entry env k a w arrives p at =
    let (mr, h, ready) = p k a at in
    let r = env.reply w.log (Call.test mr.handle) in
    let mr₂ : Request = record (with_size r mr) { peer = r.status.source } in
    let sized =
      Postable-with_size (Allocates env) r mr (arrives.2 w.log (Call.test mr.handle)) ready in
    let log₁ = Call.test mr.handle ∷ w.log in
    let mr' : Request = record (with_receive env mr₂ log₁) { stage = Stage.tx_data } in
    let w' : World = record w {
      log = data_receive mr₂ mr₂.buflen ∷ log₁;
      heap = set w.heap a (some mr');
      rlist = set w.rlist k Entry.empty;
    } in
    let step = moved_on-lem env k a mr mr₂ w arrives h ready refl in
    (
      w',
      ground (arith, at, step),
      (
        Pollable-stored a mr mr' w w' h refl env k (refl, sized.1) refl p,
        refl,
        InData-stored a mr mr' w w' h refl refl,
        λ b at_b.
            let ab : a ≡ b = ground (arith, at, at_b) in
            (
              mr',
              ap (λ t. get_elem? w'.heap t) (sym ab) ∙ get_elem?-set_over w.heap a (some mr') h,
              refl,
            ),
      ),
    )

poll_cell-Polls :
    (env : Env) (k : ℕ) (w : World)
    → Arrives env
    → Pollable env w
    → k < length w.rlist
    → get_elem? w.rlist k ≢ some Entry.unwritten
    → (w' : World) × (poll_cell env k w ≡ (ok tt, w')) × Polls env k w w'
unfolding poll_cell
poll_cell-Polls env k w arrives p lt written = elim (entry-cases w.rlist k lt) [
  | inl e ↦ (
    w,
    ground (arith, e),
    (p, sym (set_same w.rlist k Entry.empty e), λ b d. d, λ a at. absurd (ground (arith, e, at))),
  )
  | inr (inl (a, e)) ↦ poll_cell-entry env k a w arrives p e
  | inr (inr e) ↦ absurd (written e)
]
  where
    entry-cases :
        (xs : List Entry) (j : ℕ)
        → j < length xs
        → (get_elem? xs j ≡ some Entry.empty)
          ⊎ (((a : ℕ) × (get_elem? xs j ≡ some (Entry.entry a)))
              ⊎ (get_elem? xs j ≡ some Entry.unwritten))
    entry-cases [] j h = absurd (omega arith)
    entry-cases (Entry.empty ∷ xs) zero h = inl refl
    entry-cases (Entry.entry a ∷ xs) zero h = inr (inl (a, refl))
    entry-cases (Entry.unwritten ∷ xs) zero h = inr (inr refl)
    entry-cases (x ∷ xs) (suc j) h = entry-cases xs j (omega arith)

-- What the rest of a round does, from cell `i` on.
abbrev Rounds : ℕ → ℕ → World → World → Type 0
Rounds n i w w' =
    ((b : ℕ) → InData b w → InData b w')
    × ((k : ℕ) → k < i → get_elem? w'.rlist k ≡ get_elem? w.rlist k)
    × ((k : ℕ) → i ≤ k → k < i + n → get_elem? w'.rlist k ≡ some Entry.empty)
    × ((k a : ℕ) → i ≤ k → k < i + n → get_elem? w.rlist k ≡ some (Entry.entry a) → InData a w')

poll_from-Rounds :
    (env : Env) (n i : ℕ) (w : World)
    → Arrives env
    → Pollable env w
    → i + n ≤ length w.rlist
    → ((k : ℕ) → get_elem? w.rlist k ≢ some Entry.unwritten)
    → (w' : World) × (poll_from env n i w ≡ (ok tt, w')) × Rounds n i w w'
unfolding poll_from
poll_from-Rounds env zero i w arrives p fits written = (
  w,
  refl,
  (λ b d. d, λ k h. refl, λ k lo hi. absurd (omega arith), λ k a lo hi at. absurd (omega arith)),
)
poll_from-Rounds env (suc n) i w arrives p fits written =
    let (w₁, e₁, (p₁, r₁, keep₁, at₁)) =
      poll_cell-Polls env i w arrives p (omega arith) (written i) in
    let other : (k : ℕ) → i ≢ k → get_elem? w₁.rlist k ≡ get_elem? w.rlist k =
      λ k ne. ap (λ t. get_elem? t k) r₁ ∙ get_elem?-set_ne w.rlist i k Entry.empty ne in
    let own : get_elem? w₁.rlist i ≡ some Entry.empty =
      ap (λ t. get_elem? t i) r₁ ∙ get_elem?-set_self w.rlist i Entry.empty (omega arith) in
    let size : length w₁.rlist ≡ length w.rlist = ap length r₁ ∙ length-set w.rlist i Entry.empty in
    let written₁ : (k : ℕ) → get_elem? w₁.rlist k ≢ some Entry.unwritten = λ k bad.
      elim (Bool-cases (i == k)) [
        | inl same ↦ let ik : i ≡ k = ground (arith, same) in absurd (ground (arith, own, ik, bad))
        | inr differ ↦ written k (sym (other k (ground (arith, differ))) ∙ bad)
      ] in
    let (w', e', (keep', before', emptied, polled)) =
      poll_from-Rounds env n (i + 1) w₁ arrives p₁ (omega (arith, size)) written₁ in
    (
      w',
      ground (arith, e₁, e'),
      (
        λ b d. keep' b (keep₁ b d),
        λ k h. cc (before' k (omega arith), other k (λ ik. absurd (omega (arith, ik)))),
        λ k lo hi. elim (Bool-cases (i == k)) [
          | inl same ↦
              let ik : i ≡ k = ground (arith, same) in cc (before' k (omega arith), ik, own)
          | inr differ ↦
              let ik : i ≢ k = ground (arith, differ) in emptied k (omega (arith, ik)) (omega arith)
        ],
        λ k a lo hi at. elim (Bool-cases (i == k)) [
          | inl same ↦
              let ik : i ≡ k = ground (arith, same) in
              keep' a (at₁ a (ap (λ t. get_elem? w.rlist t) ik ∙ at))
          | inr differ ↦
              let ik : i ≢ k = ground (arith, differ) in
              polled k a (omega (arith, ik)) (omega arith) (other k ik ∙ at)
        ],
      ),
    )

-- `test` of a receive that awaits its size does not ask MPI, of one in its second stage it does.
request_test-waiting :
    (env : Env) (a : ℕ) (mr : Request) (w : World)
    → get_elem? w.heap a ≡ some (some mr)
    → awaits_size mr ≡ true
    → request_test env a w ≡ (ok (Value.qfalse, none), w)
unfolding request_test
request_test-waiting env a mr w h e = ground (arith, h, e)

request_test-log :
    (env : Env) (a : ℕ) (w : World)
    → InData a w
    → (handle : ℕ) × ((request_test env a w).1.log ≡ Call.test handle ∷ w.log)
unfolding request_test
request_test-log env a w (mr, h, e) = (mr.handle, ground (arith, h, e))

-- In an environment where the sizes of the pending receives have arrived, a round of the polling
-- thread over a list whose cells are all written, and whose requests have structs with buffers that
-- may be freed and memory for their lengths, returns. For each cell with a receive that awaits its size, in whichever order they
-- stand on the list: `test` of it answered `[false, nil]` and left the state as it was; after the
-- round the cell is empty, and `test` asks MPI about the receive.
pub request_thread_round-drains :
    (env : Env) (k a : ℕ) (mr : Request) (w : World)
    → Arrives env
    → Pollable env w
    → w.capacity ≤ length w.rlist
    → ((j : ℕ) → get_elem? w.rlist j ≢ some Entry.unwritten)
    → k < w.capacity
    → get_elem? w.rlist k ≡ some (Entry.entry a)
    → get_elem? w.heap a ≡ some (some mr)
    → awaits_size mr ≡ true
    → (request_test env a w ≡ (ok (Value.qfalse, none), w))
      × ((request_thread_round env w).0 ≡ ok tt)
      × (get_elem? (request_thread_round env w).1.rlist k ≡ some Entry.empty)
      × ((handle : ℕ) × ((request_test env a (request_thread_round env w).1).1.log
            ≡ Call.test handle ∷ (request_thread_round env w).1.log))
unfolding request_thread_round
request_thread_round-drains env k a mr w arrives p fits written lt at h e =
    let (w', round, (keep, before, emptied, polled)) =
      poll_from-Rounds env w.capacity 0 w arrives p (omega (arith, fits)) written in
    let same : (request_thread_round env w).1 ≡ w' = ap (λ r. r.1) round in
    (
      request_test-waiting env a mr w h e,
      ap (λ r. r.0) round,
      ap (λ t. get_elem? t.rlist k) same ∙ emptied k (omega arith) (omega arith),
      request_test-log env a (request_thread_round env w).1
          (subst (λ t. InData a t) (sym same) (polled k a (omega arith) (omega arith) at)),
    )
