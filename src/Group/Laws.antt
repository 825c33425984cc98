-- ===== src/Group/Laws.antt =====
-- mpi_group.c: rank arrays into MPI and out of it.
use mpi_ruby.Base.{
  ℕ, ℤ, List, [], ◌∷◌, ◌++◌, ◌≡◌, ap, sym, ◌∙◌, arith, length, map, cells, cells-length, length-map,
  eq_int, eq_int_refl, eq_of_eq_int, ◌≢◌, ◌⊎◌, Bool-cases, inl, inr,
}
use mpi_ruby.Ruby.{Value, RubyError, ok, raised}
use mpi_ruby.Mpi.{Call, Code, Env}
use mpi_ruby.Exception.Laws.{mpi_exception_success}
use mpi_ruby.State.{World}
use mpi_ruby.Comm.Args.{int_array, fixnums}
use mpi_ruby.Comm.Decode.{AllFit, int_array-fixnums}
use mpi_ruby.Group.{rank_value, group_translate_ranks, group_incl, group_excl}

-- What stands for a rank in Ruby: the object MPI::UNDEFINED for MPI_UNDEFINED, and for every other
-- rank the Fixnum of its number.
abbrev pub StandsFor : Env → Value → ℤ → Type 0
StandsFor env v n =
    ((n ≡ env.mpi_undefined) × (v ≡ Value.undefined))
    ⊎ ((n ≢ env.mpi_undefined) × (v ≡ Value.fixnum n))

-- The two Arrays are as long, and the values stand for the ranks in their places.
abbrev pub AllStandFor : Env → List Value → List ℤ → Type 0
AllStandFor env [] [] = Unit
AllStandFor env (v ∷ vs) (n ∷ ns) = StandsFor env v n × AllStandFor env vs ns
AllStandFor env _ _ = ⊥

StandsFor-rank_value : (env : Env) (n : ℤ) → StandsFor env (rank_value env n) n
StandsFor-rank_value env n = elim (Bool-cases (eq_int n env.mpi_undefined)) [
  | inl e ↦ inl (eq_of_eq_int n env.mpi_undefined e, rw e)
  | inr e ↦ inr (λ same. cc (e, eq_int_refl n, ap (eq_int n) same), rw e)
]

AllStandFor-rank_value : (env : Env) (ns : List ℤ) → AllStandFor env (map (rank_value env) ns) ns
AllStandFor-rank_value env [] = tt
AllStandFor-rank_value env (n ∷ ns) = (StandsFor-rank_value env n, AllStandFor-rank_value env ns)

-- The call of `translate_ranks`.
abbrev pub translation : ℕ → ℕ → List ℤ → Call
translation grp1 grp2 ranks = Call.group_translate_ranks grp1 (length (fixnums ranks)) ranks grp2

-- `translate_ranks` of Fixnums that fit gives MPI exactly these ranks, in order, with the group that
-- the stray variable yields. If MPI succeeds and answers as many ranks, the Array that comes back
-- is as long and has, in the place of each rank, MPI::UNDEFINED if that is MPI_UNDEFINED, and
-- otherwise the Fixnum of its number.
pub translate_ranks_roundtrip :
    (env : Env) (grp1 grp2 rgrp2 : ℕ) (ranks ns : List ℤ) (w : World)
    → AllFit env ranks
    → (env.reply w.log (translation grp1 grp2 ranks)).rv ≡ Code.success
    → (env.reply w.log (translation grp1 grp2 ranks)).array0 ≡ ns
    → length ns ≡ length ranks
    → (vs : List Value) × (group_translate_ranks env (ok grp2) grp1 (fixnums ranks) rgrp2 w
        ≡ (ok vs, record w { log = translation grp1 grp2 ranks ∷ w.log }))
      × AllStandFor env vs ns
unfolding group_translate_ranks
translate_ranks_roundtrip env grp1 grp2 rgrp2 ranks ns w fit good answer same = (
  map (rank_value env) ns,
  ground (arith, int_array-fixnums env ranks w fit, good, mpi_exception_success, whole),
  AllStandFor-rank_value env ns,
)
  where
    whole :
        map (rank_value env) (
          cells
            (length (fixnums ranks))
            env.junk_int
            (env.reply w.log (translation grp1 grp2 ranks)).array0)
        ≡ map (rank_value env) ns
    whole =
        ap (map (rank_value env))
          (rw (answer, length-map Value.fixnum ranks ∙ sym same) (cells-length env.junk_int ns))

int_array-bad :
    (env : Env) (ns : List ℤ) (v : Value) (rest : List Value) (e : RubyError) (w : World)
    → AllFit env ns
    → env.fix2int v ≡ raised e
    → int_array env (fixnums ns ++ (v ∷ rest)) w ≡ (raised e, w)
unfolding int_array
int_array-bad env [] v rest e w fit bad = ground (arith, bad)
int_array-bad env (n ∷ ns) v rest e w fit bad =
    ground (arith, fit.0, int_array-bad env ns v rest e w fit.1 bad)

-- A rank that FIX2INT refuses, behind Fixnums that it takes and before anything, makes `incl` and
-- `excl` raise that refusal without a call of MPI. A Fixnum too large for an int is such a rank.
pub bad_rank_refused :
    (env : Env) (grp : ℕ) (ns : List ℤ) (v : Value) (rest : List Value) (e : RubyError) (w : World)
    → AllFit env ns
    → env.fix2int v ≡ raised e
    → (group_incl env grp (fixnums ns ++ (v ∷ rest)) w ≡ (raised e, w))
      × (group_excl env grp (fixnums ns ++ (v ∷ rest)) w ≡ (raised e, w))
unfolding group_incl group_excl
bad_rank_refused env grp ns v rest e w fit bad = (
  ground (arith, int_array-bad env ns v rest e w fit bad),
  ground (arith, int_array-bad env ns v rest e w fit bad),
)
