-- ===== src/Startup/Classes.antt =====
-- mpi.c: what a start that works has registered with Ruby.
use mpi_ruby.Base.{ℕ, ◌≡◌, refl, ap, ◌∙◌, ℤ, pos, true, String, List, [], ◌∷◌, arith}
use mpi_ruby.Ruby.{ok, is_nonzero}
use mpi_ruby.Mpi.{Call, Code, PredefFn, Env}
use mpi_ruby.Exception.Laws.{mpi_exception_success}
use mpi_ruby.State.{World}
use mpi_ruby.Op.{MpiOp}
use mpi_ruby.Op.InitPredef.{define_ops, init_predef_ops, predef_names}
use mpi_ruby.Startup.Methods.{Owner}
use mpi_ruby.Startup.Tables.{op_methods, request_methods, mpi_methods}
use mpi_ruby.Startup.Init.{
  Registry, nothing_defined, define_class, define_methods, init_comm, init_group, init_status,
  init_request, init_op, init_last, init_mpi_exception, init_mpi,
}
use mpi_ruby.Startup.Laws.{before_ops, prepared, after_ops, init_mpi-prepared}

-- MPI has been initialised, and creates every predefined operation.
abbrev pub Starts : Env → World → Type 0
Starts env w =
    (is_nonzero (env.reply w.log Call.initialized).out0 ≡ true)
    × ((log : List Call) (fn : PredefFn)
        → (env.reply log (Call.op_create_predef fn (pos 1))).rv ≡ Code.success)

define_ops-ok :
    (env : Env) (stray : ℤ) (fns : List (String × PredefFn)) (w : World)
    → ((log : List Call) (fn : PredefFn)
        → (env.reply log (Call.op_create_predef fn (pos 1))).rv ≡ Code.success)
    → (ops : List (String × MpiOp)) × ((define_ops env stray fns w).0 ≡ ok ops)
unfolding define_ops
define_ops-ok env stray [] w good = ([], refl)
define_ops-ok env stray ((name, fn) ∷ rest) w good =
    let c = Call.op_create_predef fn (pos 1) in
    let r = env.reply w.log c in
    let (ops, e) = define_ops-ok env stray rest (record w { log = c ∷ w.log }) good in
    (
      (name, record { op = r.handle; idx = stray }) ∷ ops,
      ground (arith, good w.log fn, mpi_exception_success, e),
    )

-- All that is registered before `Init_Op`, and at the end.
abbrev pub before_op : Registry
before_op = define_methods request_methods (
    define_class Owner.request (
      init_status (
        init_group
          (init_comm (define_methods mpi_methods (define_class Owner.mpi nothing_defined))))))

abbrev pub registered : Registry
registered = init_mpi_exception (define_methods op_methods (define_class Owner.op before_op))

-- How `Init_MPI` ends, by the result of `init_predef_ops`.
pub ends :
    (env : Env) (stray : ℤ) (max_ops : ℕ) (w : World)
    → is_nonzero (env.reply w.log Call.initialized).out0 ≡ true
    → let r = init_predef_ops env stray (before_ops env max_ops w) in
      init_mpi env stray max_ops w
      ≡ init_last (after_ops (prepared env w) (define_class Owner.op before_op) r.0 r.1)
unfolding init_op init_request
ends env stray max_ops w h = init_mpi-prepared env stray max_ops w h

-- A start that works registers everything.
pub init_mpi-ok :
    (env : Env) (stray : ℤ) (max_ops : ℕ) (w : World)
    → Starts env w
    → ((init_mpi env stray max_ops w).outcome ≡ ok tt)
      × ((init_mpi env stray max_ops w).registry ≡ registered)
unfolding init_last init_predef_ops init_request
init_mpi-ok env stray max_ops w (h, good) =
    let (ops, e) = define_ops-ok env stray predef_names (before_ops env max_ops w) good in
    let same = ends env stray max_ops w h in
    let r = init_predef_ops env stray (before_ops env max_ops w) in
    let last : init_mpi env stray max_ops w
        ≡ init_last (after_ops (prepared env w) (define_class Owner.op before_op) (ok ops) r.1) =
      same
      ∙ ap (λ o. init_last (after_ops (prepared env w) (define_class Owner.op before_op) o r.1))
          e in
    (ap (λ s. s.outcome) last, ap (λ s. s.registry) last)
