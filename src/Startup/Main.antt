-- ===== src/Startup/Main.antt =====
-- main.c. `malloc` gives memory or NULL, for `self` and for `world`.
use mpi_ruby.Base.{
  ℕ, suc, ◌≡◌, refl, Bool, true, false, ◌&&◌, List, [], ◌∷◌, ◌++◌, not, String, if◌then◌else◌,
}

-- What `main` calls, in order; `exit` runs what `atexit` was given.
pub data HostCall : Type 0 where
  mpi_init atexit_finalize errors_return malloc_self malloc_world : HostCall
  perror : String → HostCall
  mpi_finalize barrier ignore_signals restore_signals ruby_init ruby_init_loadpath : HostCall
  ruby_options init_mpi ruby_run : HostCall

-- How the process ends: `exit` with a code, or a write through NULL.
pub data Ending : Type 0 where
  exited : ℕ → Ending
  null_pointer : Ending

-- The registered finaliser runs at `exit`.
abbrev pub exits : ℕ → List HostCall → List HostCall × Ending
exits code calls = (calls ++ (HostCall.mpi_finalize ∷ []), Ending.exited code)

abbrev pub first_calls : List HostCall
first_calls =
    HostCall.mpi_init ∷ HostCall.atexit_finalize ∷ HostCall.errors_return ∷ HostCall.malloc_self
    ∷ []

abbrev pub last_calls : List HostCall
last_calls =
    HostCall.barrier ∷ HostCall.ignore_signals ∷ HostCall.ruby_init ∷ HostCall.ruby_init_loadpath
    ∷ HostCall.ruby_options ∷ HostCall.restore_signals ∷ HostCall.barrier ∷ HostCall.init_mpi
    ∷ HostCall.ruby_run ∷ []

-- From the allocation of `world` on, whose test is of `self` again. `ruby_run` does not return: it
-- calls `exit`, here with 0.
unfoldable pub main_with_self : Bool → Bool → List HostCall × Ending
main_with_self self world =
    let calls = first_calls ++ (HostCall.malloc_world ∷ []) in
    let no_world =
      HostCall.perror "Unable to allocate MPI::Comm::WORLD" ∷ HostCall.mpi_finalize ∷ [] in
    let started = if world then exits 0 (calls ++ last_calls) else (calls, Ending.null_pointer) in
    if not self then exits 1 (calls ++ no_world) else started

unfoldable pub main : Bool → Bool → List HostCall × Ending
unfolding main_with_self
main self world =
    let no_self =
      HostCall.perror "Unable to allocate MPI::Comm::SELF" ∷ HostCall.mpi_finalize ∷ [] in
    let rest = main_with_self self world in
    if not self then exits 1 (first_calls ++ no_self) else rest

abbrev pub is_finalize : HostCall → Bool
is_finalize HostCall.mpi_finalize = true
is_finalize _ = false

abbrev pub runs_ruby : HostCall → Bool
runs_ruby HostCall.ruby_run = true
runs_ruby _ = false

abbrev pub count : (HostCall → Bool) → List HostCall → ℕ
count p [] = 0
count p (c ∷ cs) = if p c then suc (count p cs) else count p cs

-- Whether memory is given for the two communicators decides how the process ends. The script runs
-- once if both are given and MPI is then finalised once; without memory for `self` it does not run,
-- the process exits with 1 and MPI is finalised twice, by `main` and at exit; with memory for `self`
-- and none for `world` the process writes through NULL, before the script and with MPI not
-- finalised.
pub main_ends :
    (self world : Bool)
    → (count runs_ruby (main self world).0 ≡ (if self && world then 1 else 0))
      × (count is_finalize (main self world).0 ≡ (if not self then 2 else (if world then 1 else 0)))
      × ((main self world).1 ≡ (
          if not self
          then Ending.exited 1
          else (if world then Ending.exited 0 else Ending.null_pointer)))
unfolding main main_with_self
main_ends false false = (refl, refl, refl)
main_ends false true = (refl, refl, refl)
main_ends true false = (refl, refl, refl)
main_ends true true = (refl, refl, refl)
