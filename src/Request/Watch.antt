-- ===== src/Request/Watch.antt =====
-- mpi_request.c: `request_watch` and `request_unwatch` on the list `rlist` of `capacity` cells.
use mpi_ruby.Base.{
  ℕ, zero, suc, ◌+◌, ◌*◌, ◌++◌, List, [], ◌∷◌, Option, none, some, set, replicate, ◌==◌,
  if◌then◌else◌,
}
use mpi_ruby.Ruby.{Outcome, ok, fault, raised, Fault}
use mpi_ruby.State.{Entry, World, M}

-- The loop of `request_watch`: at most `n` cells from index `i` on, up to the first NULL. A test of
-- a cell that nothing wrote is undefined.
unfoldable pub find_empty : ℕ → List Entry → ℕ → Outcome (Option ℕ)
find_empty zero cells i = ok none
find_empty (suc n) [] i = fault Fault.out_of_bounds
find_empty (suc n) (Entry.empty ∷ cells) i = ok (some i)
find_empty (suc n) (Entry.entry _ ∷ cells) i = find_empty n cells (i + 1)
find_empty (suc n) (Entry.unwritten ∷ cells) i = fault Fault.indeterminate

-- The loop of `request_unwatch`, up to the first cell that holds `mr`.
unfoldable pub find_entry : ℕ → ℕ → List Entry → ℕ → Outcome (Option ℕ)
find_entry mr zero cells i = ok none
find_entry mr (suc n) [] i = fault Fault.out_of_bounds
find_entry mr (suc n) (Entry.empty ∷ cells) i = find_entry mr n cells (i + 1)
find_entry mr (suc n) (Entry.entry a ∷ cells) i =
    let rest = find_entry mr n cells (i + 1) in if a == mr then ok (some i) else rest
find_entry mr (suc n) (Entry.unwritten ∷ cells) i = fault Fault.indeterminate

-- A full list is doubled by REALLOC_N, which leaves the new cells unwritten.
unfoldable pub request_watch : ℕ → M (Unit {0})
request_watch mr w = elim (find_empty w.capacity w.rlist 0) [
  | ok (some i) ↦ (ok tt, record w { rlist = set w.rlist i (Entry.entry mr) })
  | ok none ↦ (
    ok tt,
    record w {
      capacity = w.capacity * 2;
      rlist = set (w.rlist ++ replicate w.capacity Entry.unwritten) w.capacity (Entry.entry mr);
    },
  )
  | raised e ↦ (raised e, w)
  | fault f ↦ (fault f, w)
]

unfoldable pub request_unwatch : ℕ → M (Unit {0})
request_unwatch mr w = elim (find_entry mr w.capacity w.rlist 0) [
  | ok (some i) ↦ (ok tt, record w { rlist = set w.rlist i Entry.empty })
  | ok none ↦ (ok tt, w)
  | raised e ↦ (raised e, w)
  | fault f ↦ (fault f, w)
]

-- `INITIAL_RLIST_CAP`, and the list as `Init_Request` makes it: MEMZERO makes every cell NULL.
abbrev pub initial_rlist_cap : ℕ
initial_rlist_cap = 16

unfoldable pub init_rlist : World → World
init_rlist w = record w {
  capacity = initial_rlist_cap;
  rlist = replicate initial_rlist_cap Entry.empty;
}
