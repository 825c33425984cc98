-- ===== src/Startup/Callable.antt =====
-- Which registered methods reach their C functions, and for which communicators.
use text.Mathlib.Text.{◌==◌ as str_eq}
use mpi_ruby.Base.{
  none, ℕ, zero, suc, ◌≡◌, ◌≢◌, refl, ap, sym, subst, ◌∙◌, ◌⊎◌, inl, inr, ℤ, Bool, true, false,
  ◌&&◌, ◌||◌, not, List, [], ◌∷◌, some, get_elem?, if◌then◌else◌, ◌==◌, Bool-cases, arith,
}
use mpi_ruby.Ruby.{Value, ok, raised}
use mpi_ruby.Mpi.{Env}
use mpi_ruby.State.{World}
use mpi_ruby.Comm.{RubyComm, CommStruct, init_predef_comms}
use mpi_ruby.Comm.Construct.{comm_dup, comm_create, comm_split}
use mpi_ruby.Comm.Classes.{new_comms_lack_collectives}
use mpi_ruby.Startup.Methods.{Owner, Method}
use mpi_ruby.Startup.Tables.{collective_methods}
use mpi_ruby.Startup.Init.{
  Registry, init_comm, init_group, init_status, init_mpi_exception, init_mpi,
}
use mpi_ruby.Startup.Lookup.{responds, class_of, Called, called_with}
use mpi_ruby.Startup.Classes.{Starts, registered, init_mpi-ok}

abbrev all_methods : (Method → Bool) → List Method → Bool
all_methods p [] = true
all_methods p (m ∷ ms) = p m && all_methods p ms

-- What holds of all methods of a list holds of each.
all_methods-get :
    (p : Method → Bool) (ms : List Method) (i : ℕ) (m : Method)
    → all_methods p ms ≡ true
    → get_elem? ms i ≡ some m
    → p m ≡ true
all_methods-get p [] i m all at = cc
all_methods-get p (x ∷ ms) zero m all at = elim (Bool-cases (p x)) [
  | inl e ↦ ap p (sym (ground (arith, at))) ∙ e
  | inr e ↦ absurd (ground (arith, all, e))
]
all_methods-get p (x ∷ ms) (suc i) m all at = elim (Bool-cases (p x)) [
  | inl e ↦ all_methods-get p ms i m (ground (arith, all, e)) at
  | inr e ↦ absurd (ground (arith, all, e))
]

abbrev pub misregistered : Method → Bool
misregistered m = str_eq m.name "barrier" || str_eq m.name "intercomm_merge"

-- The number given to Ruby is that of the prototype, but for the two.
abbrev fits_prototype : Method → Bool
fits_prototype m = if misregistered m then not (m.argc == m.params) else m.argc == m.params

registered-fits : all_methods fits_prototype registered.methods ≡ true
unfolding init_comm init_group init_status init_mpi_exception
registered-fits = refl

-- After a start where MPI has been initialised and creates every predefined operation: a call of a
-- registered method with as many arguments as its C function has parameters after `self` reaches
-- the function, and one with another number raises ArgumentError. The exceptions are `barrier` and
-- `intercomm_merge`, which are registered with a number that is not that of their functions: no
-- call of them, with however many arguments, reaches the function as its prototype says.
pub registered_methods_called :
    (env : Env) (stray : ℤ) (max_ops i k : ℕ) (w : World) (m : Method)
    → Starts env w
    → get_elem? (init_mpi env stray max_ops w).registry.methods i ≡ some m
    → ((misregistered m ≡ false)
        × (called_with m k ≡ (if k == m.params then Called.reaches else Called.argument_error)))
      ⊎ ((misregistered m ≡ true) × (called_with m k ≢ Called.reaches))
unfolding called_with
registered_methods_called env stray max_ops i k w m starts at =
    let reg = (init_mpi-ok env stray max_ops w starts).1 in
    let at' : get_elem? registered.methods i ≡ some m =
      ap (λ r. get_elem? r.methods i) (sym reg) ∙ at in
    let fits = all_methods-get fits_prototype registered.methods i m registered-fits at' in
    elim (Bool-cases (misregistered m)) [
      | inl two ↦ inr (two, λ e. ground (arith, fits, two, e))
      | inr usual ↦ inl (usual, ground (arith, fits, usual))
    ]

-- Nothing that MPI::Comm has is named like a collective operation.
abbrev only_intra : Method → Bool
only_intra m =
    responds registered Owner.intra_comm m.name && not (responds registered Owner.comm m.name)

collectives-only_intra : all_methods only_intra collective_methods ≡ true
unfolding init_comm init_group init_status init_mpi_exception responds
collectives-only_intra = refl

-- The same for a communicator of each class.
responds-collective :
    (reg : Registry) (i : ℕ) (m : Method)
    → reg ≡ registered
    → get_elem? collective_methods i ≡ some m
    → (responds reg Owner.intra_comm m.name ≡ true) × (responds reg Owner.comm m.name ≡ false)
responds-collective reg i m same at =
    let both = all_methods-get only_intra collective_methods i m collectives-only_intra at in
    subst
      (λ r. (responds r Owner.intra_comm m.name ≡ true) × (responds r Owner.comm m.name ≡ false))
      (sym same)
      (split (responds registered Owner.intra_comm m.name) (responds registered Owner.comm m.name)
        both)
  where
    split : (a b : Bool) → a && not b ≡ true → (a ≡ true) × (b ≡ false)
    split true false h = (refl, refl)
    split true true h = cc
    split false b h = cc

-- After a start where MPI has been initialised and creates every predefined operation, for each of
-- the ten collective operations: WORLD and SELF respond to its name, while a communicator that `dup`
-- or `split` makes does not, so that a call of it on a duplicate of WORLD raises NoMethodError.
-- `create` makes no communicator: called on the class MPI::Comm, for which alone it is registered, it
-- raises what Data_Get_Struct raises for a class, without a call of MPI.
pub made_comms_lack_collectives :
    (env : Env) (stray : ℤ) (max_ops i : ℕ) (mc : CommStruct) (grp : ℕ) (rcolor rkey : Value)
    (w w₀ w₁ w₂ : World) (dup part : RubyComm) (m : Method)
    → Starts env w
    → get_elem? collective_methods i ≡ some m
    → comm_dup env mc w₀ ≡ (ok dup, w₁)
    → comm_split env mc rcolor rkey w₀ ≡ (ok part, w₂)
    → let reg = (init_mpi env stray max_ops w).registry in
      (responds reg (class_of (init_predef_comms env).0.class) m.name ≡ true)
      × (responds reg (class_of (init_predef_comms env).1.class) m.name ≡ true)
      × (responds reg (class_of dup.class) m.name ≡ false)
      × (responds reg (class_of part.class) m.name ≡ false)
      × (comm_create env none grp w₀ ≡ (raised env.not_data, w₀))
unfolding comm_create
made_comms_lack_collectives env stray max_ops i mc grp rcolor rkey w w₀ w₁ w₂ dup part m starts at d
      p =
    let reg = (init_mpi env stray max_ops w).registry in
    let (there, absent) =
      responds-collective reg i m (init_mpi-ok env stray max_ops w starts).1 at in
    let (dup_class, part_class, self_class, world_class) =
      new_comms_lack_collectives env mc rcolor rkey w₀ w₁ w₂ dup part d p in
    (
      ap (λ k. responds reg (class_of k) m.name) self_class ∙ there,
      ap (λ k. responds reg (class_of k) m.name) world_class ∙ there,
      ap (λ k. responds reg (class_of k) m.name) dup_class ∙ absent,
      ap (λ k. responds reg (class_of k) m.name) part_class ∙ absent,
      refl,
    )
