-- ===== src/State/Keeps.antt =====
-- Statements that a C function keeps, however it ends, and results that it does not have.
use mpi_ruby.Base.{ℕ, List, ◌∷◌, Option, none, some, get_elem?}
use mpi_ruby.Ruby.{Outcome, ok, raised, fault, Fault}
use mpi_ruby.Mpi.{Call, Reply, Env}
use mpi_ruby.Exception.{mpi_exception}
use mpi_ruby.State.Cells.{World, Request}
use mpi_ruby.State.Monad.{M, pure, ◌>>=◌, checked, load}

-- Whatever the outcome, the state afterwards satisfies `P` if the state before does.
abbrev pub Keeps : {A : Type 0} → (World → Type 0) → M A → Type 0
Keeps P m = (w : World) → P w → P (m w).1

-- `P` does not look at the log.
abbrev pub IgnoresLog : (World → Type 0) → Type 0
IgnoresLog P = (c : Call) (w : World) → P w → P (record w { log = c ∷ w.log })

-- A result satisfies `Q`, if there is one.
abbrev pub Yields : {A : Type 0} → (A → Type 0) → Outcome A → Type 0
Yields Q (ok a) = Q a
Yields Q (raised _) = Unit
Yields Q (fault _) = Unit

-- From a state that satisfies `P`, a result satisfies `Q`.
abbrev pub Gives : {A : Type 0} → (World → Type 0) → (A → Type 0) → M A → Type 0
Gives P Q m = (w : World) → P w → Yields Q (m w).0

-- The part of a block after its first statement.
abbrev resume : {A B : Type 0} → (A → M B) → Outcome A → World → Outcome B × World
resume f r w = elim r [ ok a ↦ f a w | raised e ↦ (raised e, w) | fault e ↦ (fault e, w) ]

-- The function is defined: it returns or raises.
abbrev pub Unfaulted : {A : Type 0} → Outcome A → Type 0
Unfaulted (ok _) = Unit
Unfaulted (raised _) = Unit
Unfaulted (fault _) = ⊥

abbrev pub Safe : {A : Type 0} → (World → Type 0) → M A → Type 0
Safe P m = (w : World) → P w → Unfaulted (m w).0

-- A lookup, as `load` does it.
abbrev pub looked : Option (Option Request) → World → Outcome Request × World
looked o w = elim o [ some (some mr) ↦ (ok mr, w) | _ ↦ (fault Fault.dangling, w) ]

module _ (P : World → Type 0) where
  pub Keeps-load : (b : ℕ) → Keeps P (load b)
  Keeps-load b w p = go (get_elem? w.heap b)
    where
      go : (o : Option (Option Request)) → P (looked o w).1
      go none = p
      go (some none) = p
      go (some (some mr)) = p

  pub Keeps-bind :
      {A B : Type 0} (Q : A → Type 0) (m : M A) (f : A → M B)
      → Keeps P m
      → Gives P Q m
      → ((a : A) → Q a → Keeps P (f a))
      → Keeps P (m >>= f)
  Keeps-bind {A} {B} Q m f hm gm hf w p = go (m w).0 (m w).1 (hm w p) (gm w p)
    where
      go : (r : Outcome A) (w' : World) → P w' → Yields Q r → P (resume f r w').1
      go (ok a) w' p' q = hf a q w' p'
      go (raised e) w' p' q = p'
      go (fault e) w' p' q = p'

  pub Gives-bind :
      {A B : Type 0} (Q : A → Type 0) (R : B → Type 0) (m : M A) (f : A → M B)
      → Keeps P m
      → Gives P Q m
      → ((a : A) → Q a → Gives P R (f a))
      → Gives P R (m >>= f)
  Gives-bind {A} {B} Q R m f hm gm hf w p = go (m w).0 (m w).1 (hm w p) (gm w p)
    where
      go : (r : Outcome A) (w' : World) → P w' → Yields Q r → Yields R (resume f r w').0
      go (ok a) w' p' q = hf a q w' p'
      go (raised e) w' p' q = tt
      go (fault e) w' p' q = tt

  pub Safe-bind :
      {A B : Type 0} (Q : A → Type 0) (m : M A) (f : A → M B)
      → Keeps P m
      → Gives P Q m
      → Safe P m
      → ((a : A) → Q a → Safe P (f a))
      → Safe P (m >>= f)
  Safe-bind {A} Q m f hm gm sm hf w p = go (m w).0 (m w).1 (hm w p) (gm w p) (sm w p)
    where
      go :
          (r : Outcome A) (w' : World)
          → P w'
          → Yields Q r
          → Unfaulted r
          → Unfaulted (resume f r w').0
      go (ok a) w' p' q s = hf a q w' p'
      go (raised e) w' p' q s = tt
      go (fault e) w' p' q s = absurd s

  -- The rest may start from any state.
  pub Gives-last :
      {A B : Type 0} (Q : A → Type 0) (R : B → Type 0) (m : M A) (f : A → M B)
      → Gives P Q m
      → ((a : A) → Q a → Gives (λ _. Unit) R (f a))
      → Gives P R (m >>= f)
  Gives-last {A} {B} Q R m f gm hf w p = go (m w).0 (m w).1 (gm w p)
    where
      go : (r : Outcome A) (w' : World) → Yields Q r → Yields R (resume f r w').0
      go (ok a) w' q = hf a q w' tt
      go (raised e) w' q = tt
      go (fault e) w' q = tt

  pub Gives-any : {A : Type 0} (m : M A) → Gives P (λ _. Unit) m
  Gives-any {A} m w p = any (m w).0
    where
      any : (r : Outcome A) → Yields (λ _. Unit) r
      any (ok a) = tt
      any (raised e) = tt
      any (fault e) = tt

  pub Keeps-then :
      {A B : Type 0} (m : M A) (f : A → M B)
      → Keeps P m
      → ((a : A) → Keeps P (f a))
      → Keeps P (m >>= f)
  Keeps-then m f hm hf = Keeps-bind (λ _. Unit) m f hm (Gives-any m) (λ a _. hf a)

  pub Gives-then :
      {A B : Type 0} (R : B → Type 0) (m : M A) (f : A → M B)
      → Keeps P m
      → ((a : A) → Gives P R (f a))
      → Gives P R (m >>= f)
  Gives-then R m f hm hf = Gives-bind (λ _. Unit) R m f hm (Gives-any m) (λ a _. hf a)

  pub Safe-then :
      {A B : Type 0} (m : M A) (f : A → M B)
      → Keeps P m
      → Safe P m
      → ((a : A) → Safe P (f a))
      → Safe P (m >>= f)
  Safe-then m f hm sm hf = Safe-bind (λ _. Unit) m f hm (Gives-any m) sm (λ a _. hf a)

  pub Keeps-checked : (env : Env) (c : Call) → IgnoresLog P → Keeps P (checked env c)
  Keeps-checked env c free w p =
      go (mpi_exception (env.reply w.log c).rv) (record w { log = c ∷ w.log }) (free c w p)
    where
      go :
          (r : Outcome (Unit {0})) (w' : World)
          → P w'
          → P (resume (λ _. pure (env.reply w.log c)) r w').1
      go (ok _) w' p' = p'
      go (raised _) w' p' = p'
      go (fault _) w' p' = p'

  -- The result is what MPI answers to this call after some calls.
  pub Gives-checked :
      (env : Env) (c : Call) (Q : Reply → Type 0)
      → ((log : List Call) → Q (env.reply log c))
      → Gives P Q (checked env c)
  Gives-checked env c Q h w p =
      go (mpi_exception (env.reply w.log c).rv) (record w { log = c ∷ w.log })
    where
      go :
          (r : Outcome (Unit {0})) (w' : World)
          → Yields Q (resume (λ _. pure (env.reply w.log c)) r w').0
      go (ok _) w' = h w.log
      go (raised _) w' = tt
      go (fault _) w' = tt

-- From a state that satisfies `P` to one that satisfies `P'`, whatever the outcome.
abbrev pub Moves : {A : Type 0} → (World → Type 0) → (World → Type 0) → M A → Type 0
Moves P P' m = (w : World) → P w → P' (m w).1

module _ (P P' : World → Type 0) where
  pub Moves-then :
      {A B : Type 0} (m : M A) (f : A → M B)
      → Moves P P' m
      → ((a : A) → Keeps P' (f a))
      → Moves P P' (m >>= f)
  Moves-then {A} m f hm hf w p = go (m w).0 (m w).1 (hm w p)
    where
      go : (r : Outcome A) (w' : World) → P' w' → P' (resume f r w').1
      go (ok a) w' p' = hf a w' p'
      go (raised e) w' p' = p'
      go (fault e) w' p' = p'

  pub Gives-moved :
      {A B : Type 0} (R : B → Type 0) (m : M A) (f : A → M B)
      → Moves P P' m
      → ((a : A) → Gives P' R (f a))
      → Gives P R (m >>= f)
  Gives-moved {A} R m f hm hf w p = go (m w).0 (m w).1 (hm w p)
    where
      go : (r : Outcome A) (w' : World) → P' w' → Yields R (resume f r w').0
      go (ok a) w' p' = hf a w' p'
      go (raised e) w' p' = tt
      go (fault e) w' p' = tt

  -- The first statement keeps `P`, and the rest moves.
  pub Moves-last :
      {A B : Type 0} (m : M A) (f : A → M B)
      → ((w : World) → P w → P' w)
      → Keeps P m
      → ((a : A) → Moves P P' (f a))
      → Moves P P' (m >>= f)
  Moves-last {A} m f weaker hm hf w p = go (m w).0 (m w).1 (hm w p)
    where
      go : (r : Outcome A) (w' : World) → P w' → P' (resume f r w').1
      go (ok a) w' p' = hf a w' p'
      go (raised e) w' p' = weaker w' p'
      go (fault e) w' p' = weaker w' p'
