-- ===== src/Comm/Harmless.antt =====
-- mpi_comm.c: the parts of a reduction that leave the state as it is.
use mpi_ruby.Base.{ℕ, suc, ◌*◌, ◌++◌, ℤ, succ, List, [], ◌∷◌}
use mpi_ruby.Ruby.{Value, Bytes}
use mpi_ruby.Mpi.{Env}
use mpi_ruby.State.{World, M, pure, ◌>>=◌, lift}
use mpi_ruby.State.Keeps.{Keeps, Keeps-then}
use mpi_ruby.Op.Vector.{memcpy}
use mpi_ruby.Comm.PointToPoint.{marshalled}
use mpi_ruby.Comm.Reduction.{Operand, refill, fill, fill_from}

-- No call changes the state but for the log.
abbrev pub Harmless : {A : Type 0} → M A → Type 1
Harmless m = (P : World → Type 0) → Keeps P m

pub Harmless-marshalled : (env : Env) (v : Value) → Harmless (marshalled env v)
unfolding marshalled
Harmless-marshalled env v P =
    let k2 : Bytes → M Bytes = λ str. pure (str ++ (0 ∷ [])) in
    let k1 : Bytes → M Bytes = λ dump. lift (env.string_value_cstr dump) >>= k2 in
    Keeps-then P (lift (env.marshal_dump v)) k1 (λ w p. p)
      λ dump. Keeps-then P (lift (env.string_value_cstr dump)) k2 (λ w p. p) λ str w p. p

Harmless-fill_from :
    (env : Env) (size : ℕ) (len : ℤ) (xs : List Value) (i : ℕ) (send : Bytes)
    → Harmless (fill_from env size len xs i send)
unfolding fill_from
Harmless-fill_from env size len [] i send P = λ w p. p
Harmless-fill_from env size len (x ∷ xs) i send P =
    let k2 : Bytes → M Bytes = λ send'. fill_from env size len xs (suc i) send' in
    let k1 : Bytes → M Bytes = λ tmp. lift (memcpy send (i * size) tmp (succ len)) >>= k2 in
    Keeps-then P (marshalled env x) k1 (Harmless-marshalled env x P) λ tmp.
      Keeps-then P (lift (memcpy send (i * size) tmp (succ len))) k2 (λ w p. p)
        λ send'. Harmless-fill_from env size len xs (suc i) send' P

pub Harmless-refill :
    (env : Env) (size : ℕ) (len : ℤ) (operand : Operand) (send : Bytes)
    → Harmless (refill env size len operand send)
unfolding refill
Harmless-refill env size len (Operand.array xs) send P = Harmless-fill_from env size len xs 0 send P
Harmless-refill env size len (Operand.single obj) send P =
    let k1 : Bytes → M Bytes = λ tmp. lift (memcpy send 0 tmp (succ len)) in
    Keeps-then P (marshalled env obj) k1 (Harmless-marshalled env obj P) λ tmp w p. p

pub Harmless-fill :
    (env : Env) (size : ℕ) (len : ℤ) (operand : Operand) (tmp send : Bytes)
    → Harmless (fill env size len operand tmp send)
unfolding fill
Harmless-fill env size len (Operand.array xs) tmp send P =
    Harmless-fill_from env size len xs 0 send P
Harmless-fill env size len (Operand.single _) tmp send P = λ w p. p
