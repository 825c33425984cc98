-- ===== src/Request/Refines.antt =====
-- mpi_request.c: the list of pending receives as a bag of requests. `request_watch` and
-- `request_unwatch` do to the cells what insertion and removal do to the bag.
use mathlib.Core.Quot
use mpi_ruby.Base.{
  ℕ, zero, suc, ◌+◌, ◌<◌, ◌≡◌, refl, ap, ◌∙◌, sym, subst, List, [], ◌∷◌, some, none, length,
  get_elem?, set, length-set, arith, ◌⊎◌, inl, inr, Bool-cases, ◌==◌,
}
use mpi_ruby.Ruby.{ok}
use mpi_ruby.State.{Entry, World, M, pure, ◌>>◌}
use mpi_ruby.Request.Watch.{find_empty, find_entry, request_watch, request_unwatch, init_rlist}
use mpi_ruby.Request.Bag.{Bag, SameRequests, of_list, remove, size, insert, take_off}

-- The requests in the cells.
abbrev pub requests : List Entry → List ℕ
requests [] = []
requests (Entry.entry a ∷ cells) = a ∷ requests cells
requests (Entry.empty ∷ cells) = requests cells
requests (Entry.unwritten ∷ cells) = requests cells

abbrev pub pending : World → Bag
pending w = of_list (requests w.rlist)

pub data WatchEvent : Type 0 where
  watch unwatch : ℕ → WatchEvent

-- The calls of the extension, one after the other.
unfoldable pub run_watch : List WatchEvent → M (Unit {0})
run_watch [] = pure tt
run_watch (WatchEvent.watch a ∷ events) = do request_watch a; run_watch events
run_watch (WatchEvent.unwatch a ∷ events) = do request_unwatch a; run_watch events

-- The same on the bag.
unfoldable pub run_bag : List WatchEvent → Bag → Bag
run_bag [] b = b
run_bag (WatchEvent.watch a ∷ events) b = run_bag events (insert a b)
run_bag (WatchEvent.unwatch a ∷ events) b = run_bag events (take_off a b)

-- Whenever a request goes on the list, fewer than `capacity` are on it.
abbrev pub Fits : ℕ → List WatchEvent → Bag → Type 0
Fits capacity [] b = Unit
Fits capacity (WatchEvent.watch a ∷ events) b =
    (size b < capacity) × Fits capacity events (insert a b)
Fits capacity (WatchEvent.unwatch a ∷ events) b = Fits capacity events (take_off a b)

abbrev pub IsWritten : List Entry → Type 0
IsWritten [] = Unit
IsWritten (Entry.entry _ ∷ cells) = IsWritten cells
IsWritten (Entry.empty ∷ cells) = IsWritten cells
IsWritten (Entry.unwritten ∷ cells) = ⊥

abbrev pub Sound : World → Type 0
Sound w = IsWritten w.rlist × (w.capacity ≡ length w.rlist)

pub IsWritten-set_entry :
    (cells : List Entry) (k a : ℕ) → IsWritten cells → IsWritten (set cells k (Entry.entry a))
IsWritten-set_entry [] k a h = tt
IsWritten-set_entry (Entry.entry _ ∷ cells) zero a h = h
IsWritten-set_entry (Entry.empty ∷ cells) zero a h = h
IsWritten-set_entry (Entry.unwritten ∷ cells) k a h = absurd h
IsWritten-set_entry (Entry.entry _ ∷ cells) (suc k) a h = IsWritten-set_entry cells k a h
IsWritten-set_entry (Entry.empty ∷ cells) (suc k) a h = IsWritten-set_entry cells k a h

pub IsWritten-set_empty :
    (cells : List Entry) (k : ℕ) → IsWritten cells → IsWritten (set cells k Entry.empty)
IsWritten-set_empty [] k h = tt
IsWritten-set_empty (Entry.entry _ ∷ cells) zero h = h
IsWritten-set_empty (Entry.empty ∷ cells) zero h = h
IsWritten-set_empty (Entry.unwritten ∷ cells) k h = absurd h
IsWritten-set_empty (Entry.entry _ ∷ cells) (suc k) h = IsWritten-set_empty cells k h
IsWritten-set_empty (Entry.empty ∷ cells) (suc k) h = IsWritten-set_empty cells k h

-- The loop of `request_watch` finds a cell where there is room.
pub find_empty-room :
    (cells : List Entry) (i : ℕ)
    → IsWritten cells
    → length (requests cells) < length cells
    → (k : ℕ) × (find_empty (length cells) cells i ≡ ok (some (i + k)))
      × (get_elem? cells k ≡ some Entry.empty)
unfolding find_empty
find_empty-room [] i h lt = absurd (omega (arith, lt))
find_empty-room (Entry.empty ∷ cells) i h lt = (0, ground arith, refl)
find_empty-room (Entry.unwritten ∷ cells) i h lt = absurd h
find_empty-room (Entry.entry a ∷ cells) i h lt =
    let (k, found, at) = find_empty-room cells (i + 1) h (omega (arith, lt)) in
    let e : i + 1 + k ≡ i + suc k = omega arith in (suc k, found ∙ ap (λ n. ok (some n)) e, at)

pub requests-set_entry :
    (cells : List Entry) (k a : ℕ)
    → get_elem? cells k ≡ some Entry.empty
    → SameRequests (requests (set cells k (Entry.entry a))) (a ∷ requests cells)
requests-set_entry [] k a h = cc
requests-set_entry (Entry.empty ∷ cells) zero a h = (refl, λ b. refl)
requests-set_entry (Entry.entry c ∷ cells) zero a h = cc
requests-set_entry (Entry.unwritten ∷ cells) zero a h = cc
requests-set_entry (Entry.empty ∷ cells) (suc k) a h = requests-set_entry cells k a h
requests-set_entry (Entry.unwritten ∷ cells) (suc k) a h = requests-set_entry cells k a h
requests-set_entry (Entry.entry c ∷ cells) (suc k) a h =
    let (l, n) = requests-set_entry cells k a h in (ap suc l, λ b. ground (arith, n b))

-- What the loop of `request_unwatch` finds is the first entry of the request.
find_entry-remove :
    (a : ℕ) (cells : List Entry) (i : ℕ)
    → IsWritten cells
    → ((find_entry a (length cells) cells i ≡ ok none)
        × (remove a (requests cells) ≡ requests cells))
      ⊎ ((k : ℕ) × (find_entry a (length cells) cells i ≡ ok (some (i + k)))
          × (requests (set cells k Entry.empty) ≡ remove a (requests cells)))
unfolding find_entry
find_entry-remove a [] i h = inl (refl, refl)
find_entry-remove a (Entry.unwritten ∷ cells) i h = absurd h
find_entry-remove a (Entry.empty ∷ cells) i h = elim (find_entry-remove a cells (i + 1) h) [
  | inl (e, same) ↦ inl (e, same)
  | inr (k, e, same) ↦
      let shift : i + 1 + k ≡ i + suc k = omega arith in
      inr (suc k, e ∙ ap (λ n. ok (some n)) shift, same)
]
find_entry-remove a (Entry.entry b ∷ cells) i h = elim (Bool-cases (b == a)) [
  | inl here ↦ inr (0, ground (arith, here), ground (arith, here))
  | inr there ↦ elim (find_entry-remove a cells (i + 1) h) [
    | inl (e, same) ↦ inl (ground (arith, there, e), ground (arith, there, same))
    | inr (k, e, same) ↦ inr (suc k, ground (arith, there, e), ground (arith, there, same))
  ]
]

-- One call, where there is room.
request_watch-insert :
    (a : ℕ) (w : World)
    → Sound w
    → size (pending w) < w.capacity
    → (w' : World) × (request_watch a w ≡ (ok tt, w'))
      × (w'.capacity ≡ w.capacity)
      × (pending w' ≡ insert a (pending w))
      × Sound w'
unfolding request_watch size insert
request_watch-insert a w (written, full) lt =
    let (k, found, at) = find_empty-room w.rlist 0 written (omega (arith, lt, full)) in
    (
      record w { rlist = set w.rlist k (Entry.entry a) },
      ground (arith, full, found),
      refl,
      Quot.sound (requests-set_entry w.rlist k a at),
      (IsWritten-set_entry w.rlist k a written, full ∙ sym (length-set w.rlist k (Entry.entry a))),
    )

request_unwatch-take_off :
    (a : ℕ) (w : World)
    → Sound w
    → (w' : World) × (request_unwatch a w ≡ (ok tt, w'))
      × (w'.capacity ≡ w.capacity)
      × (pending w' ≡ take_off a (pending w))
      × Sound w'
unfolding request_unwatch take_off
request_unwatch-take_off a w (written, full) = elim (find_entry-remove a w.rlist 0 written) [
  | inl (none_found, same) ↦
      (w, ground (arith, full, none_found), refl, ap of_list (sym same), (written, full))
  | inr (k, found, same) ↦ (
    record w { rlist = set w.rlist k Entry.empty },
    ground (arith, full, found),
    refl,
    ap of_list same,
    (IsWritten-set_empty w.rlist k written, full ∙ sym (length-set w.rlist k Entry.empty)),
  )
]

Fits-moved :
    (events : List WatchEvent) (w w' : World) {b : Bag}
    → w'.capacity ≡ w.capacity
    → pending w' ≡ b
    → Fits w.capacity events b
    → Fits w'.capacity events (pending w')
Fits-moved events w w' cap same fits =
    subst (λ c. Fits c events (pending w')) (sym cap)
      (subst (λ x. Fits w.capacity events x) (sym same) fits)

-- One call, and then the others.
first_then :
    (e : WatchEvent) (events : List WatchEvent) (w w' : World)
    → run_watch (e ∷ events) w ≡ run_watch events w'
    → w'.capacity ≡ w.capacity
    → (b : Bag) → pending w' ≡ b
    → ((run_watch events w').0 ≡ ok tt)
      × ((run_watch events w').1.capacity ≡ w'.capacity)
      × (pending (run_watch events w').1 ≡ run_bag events (pending w'))
    → ((run_watch (e ∷ events) w).0 ≡ ok tt)
      × ((run_watch (e ∷ events) w).1.capacity ≡ w.capacity)
      × (pending (run_watch (e ∷ events) w).1 ≡ run_bag events b)
first_then e events w w' run cap b same (fine, kept, refines) = (
  ap (λ r. r.0) run ∙ fine,
  ap (λ r. r.1.capacity) run ∙ kept ∙ cap,
  ap (λ r. pending r.1) run ∙ refines ∙ ap (run_bag events) same,
)

-- From a list without unwritten cells, whose capacity is its length, every sequence of calls of
-- `request_watch` and `request_unwatch` that never has more receives pending than the capacity
-- returns, keeps the capacity, and does to the bag of pending receives what insertions and removals
-- do to it, whichever cells it uses.
pub run_watch-refines :
    (events : List WatchEvent) (w : World)
    → Sound w
    → Fits w.capacity events (pending w)
    → ((run_watch events w).0 ≡ ok tt)
      × ((run_watch events w).1.capacity ≡ w.capacity)
      × (pending (run_watch events w).1 ≡ run_bag events (pending w))
unfolding run_watch run_bag
run_watch-refines [] w sound fits = (refl, refl, refl)
run_watch-refines (WatchEvent.watch a ∷ events) w sound (lt, fits) =
    let (w', step, cap, same, sound') = request_watch-insert a w sound lt in
    first_then (WatchEvent.watch a) events w w' (ground (arith, step)) cap (insert a (pending w))
      same (run_watch-refines events w' sound' (Fits-moved events w w' cap same fits))
run_watch-refines (WatchEvent.unwatch a ∷ events) w sound fits =
    let (w', step, cap, same, sound') = request_unwatch-take_off a w sound in
    first_then (WatchEvent.unwatch a) events w w' (ground (arith, step)) cap
      (take_off a (pending w)) same
      (run_watch-refines events w' sound' (Fits-moved events w w' cap same fits))

-- The list at the start is empty, and has room for 16 receives.
pub init_rlist-Sound : (w : World) → Sound (init_rlist w) × (pending (init_rlist w) ≡ of_list [])
unfolding init_rlist
init_rlist-Sound w = ((tt, refl), refl)
