-- ===== src/Startup/Keyvals.antt =====
-- mpi.c: no start defines the class of key values, which the attributes of mpi_comm.c need.
use mpi_ruby.Base.{◌≡◌, Bool, true, false, ◌||◌, List, [], ◌∷◌}
use mpi_ruby.Startup.Methods.{Owner}
use mpi_ruby.Startup.Init.{Registry}
use mpi_ruby.Startup.Lookup.{any_method}

abbrev pub is_keyval : Owner → Bool
is_keyval Owner.keyval = true
is_keyval _ = false

abbrev pub any_class : (Owner → Bool) → List Owner → Bool
any_class p [] = false
any_class p (c ∷ cs) = p c || any_class p cs

-- The class is not defined, and no method of it is.
abbrev pub LacksKeyval : Registry → Type 0
LacksKeyval reg =
    (any_class is_keyval reg.classes ≡ false)
    × (any_method (λ m. is_keyval m.owner) reg.methods ≡ false)
