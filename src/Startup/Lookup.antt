-- ===== src/Startup/Lookup.antt =====
-- How Ruby finds the methods that the `Init_` functions register, and calls their C functions.
use text.Mathlib.Text.{◌==◌ as str_eq}
use mpi_ruby.Base.{ℕ, Bool, true, false, ◌&&◌, ◌||◌, String, List, [], ◌∷◌, if◌then◌else◌, ◌==◌}
use mpi_ruby.Comm.{CommClass}
use mpi_ruby.Startup.Methods.{Owner, How, Method}
use mpi_ruby.Startup.Init.{Registry}

-- A class is itself or stands below the other one.
abbrev pub is_a : Owner → Owner → Bool
is_a Owner.comm Owner.comm = true
is_a Owner.intra_comm Owner.intra_comm = true
is_a Owner.intra_comm Owner.comm = true
is_a Owner.group Owner.group = true
is_a Owner.status Owner.status = true
is_a Owner.request Owner.request = true
is_a Owner.op Owner.op = true
is_a Owner.keyval Owner.keyval = true
is_a Owner.exception Owner.exception = true
is_a _ _ = false

abbrev pub on_instances : How → Bool
on_instances How.method = true
on_instances _ = false

abbrev pub any_method : (Method → Bool) → List Method → Bool
any_method p [] = false
any_method p (m ∷ ms) = p m || any_method p ms

-- `obj.respond_to?(name)` for an object of the class, as far as the extension defines methods.
unfoldable pub responds : Registry → Owner → String → Bool
responds reg c name =
    any_method (λ m. on_instances m.how && (is_a c m.owner && str_eq m.name name)) reg.methods

abbrev pub class_of : CommClass → Owner
class_of CommClass.comm = Owner.comm
class_of CommClass.intra_comm = Owner.intra_comm

-- What a call with `k` arguments comes to: Ruby compares `k` with `argc`, and passes `argc`
-- arguments to the C function, which is defined where the function takes that many.
pub data Called : Type 0 where
  argument_error reaches undefined : Called

unfoldable pub called_with : Method → ℕ → Called
called_with m k =
    if k == m.argc
    then (if m.argc == m.params then Called.reaches else Called.undefined)
    else Called.argument_error
