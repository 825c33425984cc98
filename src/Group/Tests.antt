-- ===== src/Group/Tests.antt =====
-- mpi_group.c at concrete groups.
use Prim.Native.Nat.{◌^◌}
use mpi_ruby.Base.{ltb, if◌then◌else◌, ◌≡◌, refl, ℤ, pos, negsuc, List, [], ◌∷◌, ◌++◌}
use mpi_ruby.Ruby.{Value, Outcome, ok, raised, other, type_error}
use mpi_ruby.Mpi.{Env}
use mpi_ruby.Samples.{calm, env_of, fine, start_world}
use mpi_ruby.Comm.Args.{fixnums}
use mpi_ruby.Group.{group_translate_ranks, group_incl, group_excl}
use mpi_ruby.Group.Laws.{AllStandFor, translation, translate_ranks_roundtrip, bad_rank_refused}

-- MPI translates two ranks to 5 and to none.
abbrev answers : List ℤ
answers = pos 5 ∷ negsuc 2 ∷ []

abbrev translator : Env
translator = env_of (λ _ _. record fine { array0 = answers })

translate_ranks_roundtrip_example :
    (vs : List Value) × (group_translate_ranks translator
        (ok 12)
        11
        (fixnums (pos 0 ∷ pos 1 ∷ []))
        13
        start_world
      ≡ (ok vs, record start_world { log = translation 11 12 (pos 0 ∷ pos 1 ∷ []) ∷ [] }))
    × AllStandFor translator vs answers
translate_ranks_roundtrip_example =
    translate_ranks_roundtrip translator 11 12 13 (pos 0 ∷ pos 1 ∷ []) answers start_world
      (refl, (refl, tt)) refl refl refl

-- FIX2INT raises a RangeError, number 8, for a Fixnum that is no int of 32 bits.
abbrev to_int32 : Value → Outcome ℤ
to_int32 (Value.fixnum (pos n)) = if ltb n (2 ^ 31) then ok (pos n) else raised (other 8)
to_int32 (Value.fixnum (negsuc n)) = if ltb n (2 ^ 31) then ok (negsuc n) else raised (other 8)
to_int32 _ = raised type_error

abbrev narrow_ints : Env
narrow_ints = record calm { fix2int = to_int32 }

abbrev too_large : Value
too_large = Value.fixnum (pos (2 ^ 31))

bad_rank_refused_example :
    (group_incl narrow_ints 11 (fixnums (pos 4 ∷ []) ++ (too_large ∷ [])) start_world
      ≡ (raised (other 8), start_world))
    × (group_excl narrow_ints 11 (fixnums (pos 4 ∷ []) ++ (too_large ∷ [])) start_world
        ≡ (raised (other 8), start_world))
bad_rank_refused_example =
    bad_rank_refused narrow_ints 11 (pos 4 ∷ []) too_large [] (other 8) start_world (refl, tt) refl
