-- ===== src/Comm/Cartesian.antt =====
-- mpi_comm.c: Cartesian topologies, as they are created and as they are read back.
use mpi_ruby.Base.{
  ℤ, pos, List, [], ◌∷◌, ◌≡◌, ◌≢◌, refl, ap, sym, arith, some, length, map, cells, cells-length,
  length-map, ◌∙◌, inl, inr,
}
use mpi_ruby.Ruby.{Value, ok, raised, mpi_error, truthy, rb_bool, int_of_bool, is_nonzero_of_bool}
use mpi_ruby.Mpi.{Call, Code, Env, Reply}
use mpi_ruby.Exception.Laws.{
  mpi_exception_success, mpi_exception_arg, mpi_exception_raises, Code-cases,
}
use mpi_ruby.State.{World}
use mpi_ruby.Comm.Struct.{CommStruct, RubyComm, fresh_struct, comm_new}
use mpi_ruby.Comm.Args.{fixnums, flags}
use mpi_ruby.Comm.Construct.{new_comm}
use mpi_ruby.Comm.Topology.{comm_cart_create, comm_cart_get, comm_cart_map, rb_flags}
use mpi_ruby.Comm.Decode.{AllFit, int_array-fixnums}

-- When there are not as many periods as dimensions, `cart_create` and `cart_map` raise
-- MPI::Exception "Invalid argument" before any conversion and any call of MPI.
pub cart_lengths_checked :
    (env : Env) (mc : CommStruct) (rdims rperiods : List Value) (rreorder : Value) (w : World)
    → length rperiods ≢ length rdims
    → (comm_cart_create env mc rdims rperiods rreorder w
        ≡ (raised (mpi_error "Invalid argument"), w))
      × (comm_cart_map env mc rdims rperiods w ≡ (raised (mpi_error "Invalid argument"), w))
unfolding comm_cart_create comm_cart_map
cart_lengths_checked env mc rdims rperiods rreorder w ne =
    (ground (arith, mpi_exception_arg), ground (arith, mpi_exception_arg))

-- The call that `cart_create` makes.
abbrev pub cart_call : CommStruct → List ℤ → List Value → ℤ → Call
cart_call mc dims rperiods reorder =
    Call.cart_create mc.comm (length (fixnums dims)) dims (flags rperiods) reorder

cart_create_lem :
    (env : Env) (mc : CommStruct) (dims : List ℤ) (rperiods : List Value) (reorder : ℤ) (w : World)
    → length rperiods ≡ length (fixnums dims)
    → AllFit env (reorder ∷ dims)
    → (env.reply w.log (cart_call mc dims rperiods reorder)).rv ≡ Code.success
    → comm_cart_create env mc (fixnums dims) rperiods (Value.fixnum reorder) w ≡ (
      ok (
          some (
            comm_new (fresh_struct (env.reply w.log (cart_call mc dims rperiods reorder)).handle))),
      record w { log = cart_call mc dims rperiods reorder ∷ w.log },
    )
unfolding comm_cart_create new_comm
cart_create_lem env mc dims rperiods reorder w same law good =
    ground (arith, int_array-fixnums env dims w law.1, law.0, mpi_exception_success)

rb_flags-flags : (vs : List Value) → rb_flags (flags vs) ≡ map (λ v. rb_bool (truthy v)) vs
rb_flags-flags [] = refl
rb_flags-flags (v ∷ vs) = ground (arith, is_nonzero_of_bool (truthy v), rb_flags-flags vs)

-- A `cart_create` that returns has made the one call, and it succeeded.
cart_create-call :
    (env : Env) (mc : CommStruct) (dims : List ℤ) (rperiods : List Value) (reorder : ℤ)
    (c : RubyComm) (made : Call) (w w₁ : World)
    → length rperiods ≡ length (fixnums dims)
    → AllFit env (reorder ∷ dims)
    → comm_cart_create env mc (fixnums dims) rperiods (Value.fixnum reorder) w ≡ (ok (some c), w₁)
    → w₁.log ≡ made ∷ w.log
    → made ≡ cart_call mc dims rperiods reorder
unfolding comm_cart_create new_comm
cart_create-call env mc dims rperiods reorder c made w w₁ same law created top =
    elim (Code-cases (env.reply w.log (cart_call mc dims rperiods reorder)).rv) [
      | inl good ↦
          ground (arith, int_array-fixnums env dims w law.1, law.0, mpi_exception_success, good)
      | inr bad ↦
          (let (m, e) = mpi_exception_raises _ bad in
            absurd (ground (arith, int_array-fixnums env dims w law.1, law.0, e)))
    ]

-- The dimensions and periods that a call of MPI_Cart_create was given.
abbrev pub given_dims : Call → List ℤ
given_dims (Call.cart_create _ _ dims _ _) = dims
given_dims _ = []

abbrev pub given_periods : Call → List ℤ
given_periods (Call.cart_create _ _ _ periods _) = periods
given_periods _ = []

-- MPI's two answers to `cart_get`.
abbrev pub dim_reply : Env → CommStruct → World → Reply
dim_reply env mc w = env.reply w.log (Call.cartdim_get mc.comm)

abbrev pub get_reply : Env → CommStruct → World → Reply
get_reply env mc w =
    env.reply (Call.cartdim_get mc.comm ∷ w.log) (Call.cart_get mc.comm (dim_reply env mc w).out0)

-- `cart_create` with Fixnums that fit and as many periods as dimensions returns a communicator. If
-- MPI then reports of it the number of dimensions, and the dimensions and periods that it was given,
-- with some coordinates, then `cart_get` returns the dimensions as they were, the periods as true or
-- false by their truth in Ruby, and the coordinates.
pub cart_get-cart_create :
    (env : Env) (mc : CommStruct) (dims coords : List ℤ) (rperiods : List Value) (reorder : ℤ)
    (c : RubyComm) (made : Call) (w w₁ w₂ : World)
    → length rperiods ≡ length dims
    → length coords ≡ length dims
    → AllFit env (reorder ∷ dims)
    → comm_cart_create env mc (fixnums dims) rperiods (Value.fixnum reorder) w ≡ (ok (some c), w₁)
    → w₁.log ≡ made ∷ w.log
    → (dim_reply env c.struct w₂).rv ≡ Code.success
    → (dim_reply env c.struct w₂).out0 ≡ pos (length dims)
    → (get_reply env c.struct w₂).rv ≡ Code.success
    → (get_reply env c.struct w₂).array0 ≡ given_dims made
    → (get_reply env c.struct w₂).array1 ≡ given_periods made
    → (get_reply env c.struct w₂).array2 ≡ coords
    → (comm_cart_get env c.struct w₂).0
      ≡ ok (fixnums dims, map (λ v. rb_bool (truthy v)) rperiods, fixnums coords)
unfolding comm_cart_get
cart_get-cart_create env mc dims coords rperiods reorder c made w w₁ w₂ np nc law created top g₁ n
      g₂ a₀ a₁ a₂ =
    ground (
      arith,
      g₁,
      n,
      g₂,
      mpi_exception_success,
      ap fixnums (
          ap (cells (length dims) env.junk_int) (a₀ ∙ ap given_dims call)
          ∙ cells-length env.junk_int dims),
      ap rb_flags (ap (cells (length dims) env.junk_int) (a₁ ∙ ap given_periods call) ∙ periods)
          ∙ rb_flags-flags rperiods,
      ap fixnums (ap (cells (length dims) env.junk_int) a₂ ∙ coordinates),
    )
  where
    call : made ≡ cart_call mc dims rperiods reorder
    call =
        cart_create-call env mc dims rperiods reorder c made w w₁
          (np ∙ sym (length-map Value.fixnum dims)) law created top

    periods : cells (length dims) env.junk_int (flags rperiods) ≡ flags rperiods
    periods =
        rw (sym np ∙ sym (length-map (λ v. int_of_bool (truthy v)) rperiods))
          (cells-length env.junk_int (flags rperiods))

    coordinates : cells (length dims) env.junk_int coords ≡ coords
    coordinates = rw (sym nc) (cells-length env.junk_int coords)
