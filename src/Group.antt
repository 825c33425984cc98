-- ===== src/Group.antt =====
-- src/mpi_group.c: groups of processes. `grp` is the handle behind `self`.
pub mod Laws
mod Tests
use mpi_ruby.Base.{ℕ, ℤ, List, [], ◌∷◌, length, map, cells, if◌then◌else◌, eq_int}
use mpi_ruby.Ruby.{Value, Outcome, rb_bool, rb_ary_entry}
use mpi_ruby.Mpi.{Call, Env}
use mpi_ruby.State.{◌>>=◌, ◌>>◌, M, pure, lift, checked}
use mpi_ruby.Comm.Args.{int_array}

-- The finaliser.
unfoldable pub group_free : Env → ℕ → M (Unit {0})
group_free env grp = do checked env (Call.group_free grp); pure tt

unfoldable pub group_size : Env → ℕ → M Value
group_size env grp = do r ← checked env (Call.group_size grp); pure (Value.fixnum r.out0)

-- A rank as Ruby sees it: MPI::UNDEFINED or a Fixnum.
abbrev pub rank_value : Env → ℤ → Value
rank_value env rank = if eq_int rank env.mpi_undefined then Value.undefined else Value.fixnum rank

unfoldable pub group_rank : Env → ℕ → M Value
group_rank env grp = do r ← checked env (Call.group_rank grp); pure (rank_value env r.out0)

-- In the methods of two groups `Data_Get_Struct(grp2, MPI_Group, grp2)` reads the local variable
-- `grp2`, which nothing set, as a VALUE, and never `rgrp2`. `stray` is what that yields.
unfoldable pub group_translate_ranks : Env → Outcome ℕ → ℕ → List Value → ℕ → M (List Value)
group_translate_ranks env stray grp1 ary rgrp2 = do
  grp2 ← lift stray
  ranks1 ← int_array env ary
  r ← checked env (Call.group_translate_ranks grp1 (length ary) ranks1 grp2)
  pure (map (rank_value env) (cells (length ary) env.junk_int r.array0))

-- MPI_Group_compare on `self` and the group behind `stray`, against one of its answers.
unfoldable pub compare_groups : Env → ℤ → Outcome ℕ → ℕ → ℕ → M Value
compare_groups env wanted stray grp1 rgrp2 = do
  grp2 ← lift stray
  r ← checked env (Call.group_compare grp1 grp2)
  pure (rb_bool (eq_int r.out0 wanted))

unfoldable pub group_equal : Env → Outcome ℕ → ℕ → ℕ → M Value
unfolding compare_groups
group_equal env = compare_groups env env.mpi_ident

unfoldable pub group_similar_p : Env → Outcome ℕ → ℕ → ℕ → M Value
unfolding compare_groups
group_similar_p env = compare_groups env env.mpi_similar

-- The handle that `group_new` wraps.
unfoldable pub group_union : Env → Outcome ℕ → ℕ → ℕ → M ℕ
group_union env stray grp1 rgrp2 = do
  grp2 ← lift stray
  r ← checked env (Call.group_union grp1 grp2)
  pure r.handle

unfoldable pub group_intersection : Env → Outcome ℕ → ℕ → ℕ → M ℕ
group_intersection env stray grp1 rgrp2 = do
  grp2 ← lift stray
  r ← checked env (Call.group_intersection grp1 grp2)
  pure r.handle

unfoldable pub group_difference : Env → Outcome ℕ → ℕ → ℕ → M ℕ
group_difference env stray grp1 rgrp2 = do
  grp2 ← lift stray
  r ← checked env (Call.group_difference grp1 grp2)
  pure r.handle

unfoldable pub group_incl : Env → ℕ → List Value → M ℕ
group_incl env grp ary = do
  ranks ← int_array env ary
  r ← checked env (Call.group_incl grp (length ary) ranks)
  pure r.handle

unfoldable pub group_excl : Env → ℕ → List Value → M ℕ
group_excl env grp ary = do
  ranks ← int_array env ary
  r ← checked env (Call.group_excl grp (length ary) ranks)
  pure r.handle

-- One `ranks[i]`: the first three entries of the triple, nil where it is shorter.
unfoldable pub triple : Env → List Value → M (List ℤ)
triple env range =
    int_array env (rb_ary_entry range 0 ∷ rb_ary_entry range 1 ∷ rb_ary_entry range 2 ∷ [])

unfoldable pub triples : Env → List (List Value) → M (List (List ℤ))
unfolding triple
triples env [] = pure []
triples env (range ∷ rest) = do t ← triple env range; ts ← triples env rest; pure (t ∷ ts)

-- `ranks` is an array of pointers to the triples. Its address is cast to that of an array of
-- triples, so MPI reads the pointers as `int`s: `pointers` is what they read as.
unfoldable pub group_range_incl : Env → List ℤ → ℕ → List (List Value) → M ℕ
unfolding triples
group_range_incl env pointers grp ary = do
  triples env ary
  r ← checked env (Call.group_range_incl grp (length ary) pointers)
  pure r.handle

unfoldable pub group_range_excl : Env → List ℤ → ℕ → List (List Value) → M ℕ
unfolding triples
group_range_excl env pointers grp ary = do
  triples env ary
  r ← checked env (Call.group_range_excl grp (length ary) pointers)
  pure r.handle
