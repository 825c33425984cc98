-- ===== src/Request/WatchList.antt =====
-- mpi_request.c: what `request_watch` and `request_unwatch` do to the list, and what happens when it
-- is full.
use mpi_ruby.Base.{
  ℕ, zero, suc, ◌+◌, ◌*◌, ◌≡◌, ◌≢◌, refl, ap, ◌∙◌, List, [], ◌∷◌, ◌++◌, none, some, set, length,
  replicate, get_elem?, set-set, set_same, arith,
}
use mpi_ruby.Ruby.{ok, fault, Fault}
use mpi_ruby.State.{Entry, World}
use mpi_ruby.Request.Watch.{find_empty, find_entry, request_watch, request_unwatch}

-- No cell holds the request.
abbrev pub NotOn : ℕ → List Entry → Type 0
NotOn a [] = Unit
NotOn a (Entry.entry b ∷ cells) = (b ≢ a) × NotOn a cells
NotOn a (Entry.empty ∷ cells) = NotOn a cells
NotOn a (Entry.unwritten ∷ cells) = NotOn a cells

-- Every cell holds a request.
abbrev pub IsFull : List Entry → Type 0
IsFull [] = Unit
IsFull (Entry.entry _ ∷ cells) = IsFull cells
IsFull (Entry.empty ∷ cells) = ⊥
IsFull (Entry.unwritten ∷ cells) = ⊥

-- The cell that the loop of `request_watch` finds is the one that the loop of `request_unwatch`
-- finds once the request is in it. `i` is the index of the first cell of the list.
find_entry-set :
    (a n : ℕ) (cells : List Entry) (i : ℕ) {j : ℕ}
    → NotOn a cells
    → find_empty n cells i ≡ ok (some j)
    → (k : ℕ) × (j ≡ i + k)
      × (get_elem? cells k ≡ some Entry.empty)
      × (find_entry a n (set cells k (Entry.entry a)) i ≡ ok (some j))
unfolding find_empty find_entry
find_entry-set a zero cells i h e = cc
find_entry-set a (suc n) [] i h e = cc
find_entry-set a (suc n) (Entry.empty ∷ cells) i h e = (0, ground arith, refl, ground arith)
find_entry-set a (suc n) (Entry.entry b ∷ cells) i h e =
    let (k, j, found, entry) = find_entry-set a n cells (i + 1) h.1 e in
    (suc k, omega arith, found, ground arith)
find_entry-set a (suc n) (Entry.unwritten ∷ cells) i h e = cc

-- While a cell is free, `request_watch` of a request that is not on the list puts it into one, and
-- a `request_unwatch` of it restores the state as it was.
pub request_unwatch-request_watch :
    (a j : ℕ) (w : World)
    → NotOn a w.rlist
    → find_empty w.capacity w.rlist 0 ≡ ok (some j)
    → (request_watch a w ≡ (ok tt, record w { rlist = set w.rlist j (Entry.entry a) }))
      × (request_unwatch a (request_watch a w).1 ≡ (ok tt, w))
unfolding request_watch request_unwatch
request_unwatch-request_watch a j w h e =
    let (k, same, free, found) = find_entry-set a w.capacity w.rlist 0 h e in
    let jk : j ≡ k = omega arith in
    (
      ground arith,
      ground (
        arith,
        jk,
        set-set w.rlist k (Entry.entry a) Entry.empty,
        set_same w.rlist k Entry.empty free,
      ),
    )

-- The loop runs through a full part of the list into what follows.
find_empty-full :
    (cells more : List Entry) (m n i : ℕ)
    → IsFull cells
    → m ≡ length cells + n
    → find_empty m (cells ++ more) i ≡ find_empty n more (i + length cells)
unfolding find_empty
find_empty-full [] more m n i h e =
    let same : m ≡ n = omega arith in
    let at_i : i ≡ i + 0 = omega arith in rw same (ap (find_empty n more) at_i)
find_empty-full (Entry.entry b ∷ cells) more zero n i h e = absurd (omega arith)
find_empty-full (Entry.entry b ∷ cells) more (suc m) n i h e =
    find_empty-full cells more m n (i + 1) h (omega arith) ∙ ap (find_empty n more) (omega arith)
find_empty-full (Entry.empty ∷ cells) more m n i h e = absurd h
find_empty-full (Entry.unwritten ∷ cells) more m n i h e = absurd h

set-append :
    (cells more : List Entry) (e : Entry)
    → set (cells ++ more) (length cells) e ≡ cells ++ set more 0 e
set-append [] more e = refl
set-append (x ∷ cells) more e = ap (λ t. x ∷ t) (set-append cells more e)

find_empty-full_nil :
    (cells : List Entry) (m i : ℕ)
    → IsFull cells
    → m ≡ length cells
    → find_empty m cells i ≡ ok none
unfolding find_empty
find_empty-full_nil [] m i h e = let z : m ≡ 0 = omega arith in rw z
find_empty-full_nil (Entry.entry b ∷ cells) zero i h e = absurd (omega arith)
find_empty-full_nil (Entry.entry b ∷ cells) (suc m) i h e =
    find_empty-full_nil cells m (i + 1) h (omega arith)
find_empty-full_nil (Entry.empty ∷ cells) m i h e = absurd h
find_empty-full_nil (Entry.unwritten ∷ cells) m i h e = absurd h

-- The list that a `request_watch` of a full one leaves: as long again, with the request in the first
-- new cell and the others unwritten.
abbrev pub grown : ℕ → ℕ → List Entry → List Entry
grown a k cells = cells ++ (Entry.entry a ∷ replicate k Entry.unwritten)

request_watch-full :
    (a k : ℕ) (w : World)
    → IsFull w.rlist
    → w.capacity ≡ length w.rlist
    → w.capacity ≡ suc k
    → request_watch a w ≡ (ok tt, record w { capacity = w.capacity * 2; rlist = grown a k w.rlist })
unfolding request_watch
request_watch-full a k w h e s = ground (
  arith,
  find_empty-full_nil w.rlist w.capacity 0 h e,
  set-append w.rlist (replicate (suc k) Entry.unwritten) (Entry.entry a),
)

-- A list that is full but for an unwritten cell behind the new request.
find_empty-grown :
    (a k n : ℕ) (cells : List Entry)
    → IsFull cells
    → n ≡ length cells + suc (suc k)
    → find_empty n (grown a (suc k) cells) 0 ≡ fault Fault.indeterminate
unfolding find_empty
find_empty-grown a k n cells h e =
    find_empty-full cells (Entry.entry a ∷ replicate (suc k) Entry.unwritten) n (suc (suc k)) 0 h e

-- On a full list of two cells or more `request_watch` doubles the list, and the cells that it adds
-- behind the new request are unwritten memory. The `request_watch` after that reads one of them:
-- with 16 cells at first, the 18th receive that is pending at once is undefined behaviour.
pub request_watch_overflows :
    (a b k : ℕ) (w : World)
    → IsFull w.rlist
    → w.capacity ≡ length w.rlist
    → w.capacity ≡ suc (suc k)
    → ((request_watch a w).0 ≡ ok tt)
      × ((request_watch a w).1.rlist ≡ grown a (suc k) w.rlist)
      × ((request_watch b (request_watch a w).1).0 ≡ fault Fault.indeterminate)
unfolding request_watch
request_watch_overflows a b k w h e s =
    let first = request_watch-full a (suc k) w h e s in
    (
      ap (λ r. r.0) first,
      ap (λ r. r.1.rlist) first,
      ground (arith, first, find_empty-grown a k (w.capacity * 2) w.rlist h (omega arith)),
    )
