-- ===== src/Exception/Laws.antt =====
-- mpi_exception.c: which codes raise, and what a message tells of its code.
use Prim.Native.String.{String}
use text.Mathlib.Text.{◌==◌ as str_eq}
use mpi_ruby.Base.{
  ◌≡◌, ◌≢◌, ◌⊎◌, inl, inr, refl, ap, sym, ◌∙◌, Option, none, some, List, [], ◌∷◌, ◌↔◌,
  if◌then◌else◌, arith,
}
use mpi_ruby.Ruby.{ok, raised, mpi_error}
use mpi_ruby.Mpi.{Code}
use mpi_ruby.Exception.{message, mpi_exception}

-- `mpi_exception` returns to its caller for MPI_SUCCESS, and for no other code.
pub mpi_exception-ok_iff : (c : Code) → (mpi_exception c ≡ ok tt) ↔ (c ≡ Code.success)
unfolding mpi_exception message
mpi_exception-ok_iff Code.success = (λ _. refl, λ _. refl)
mpi_exception-ok_iff _ = (λ h. cc, λ h. cc)

-- The error class that a code reports: codes without a `case` count as MPI_ERR_UNKNOWN.
abbrev pub class : Code → Code
class (Code.unlisted _) = Code.err_unknown
class c = c

-- Reads the class back off a message.
class_of_text : List (String × Code) → String → Code
class_of_text [] m = Code.success
class_of_text ((t, c) ∷ rest) m = if str_eq t m then c else class_of_text rest m

abbrev texts : List (String × Code)
texts =
    ("Invalid buffer pointer", Code.err_buffer)
    ∷ ("Invalid count argument", Code.err_count)
    ∷ ("Invalid datatype argument", Code.err_type)
    ∷ ("Invalid tag argument", Code.err_tag)
    ∷ ("Invalid communicator", Code.err_comm)
    ∷ ("Invalid rank", Code.err_rank)
    ∷ ("Invalid request handle", Code.err_request)
    ∷ ("Invalid root", Code.err_root)
    ∷ ("Invalid group", Code.err_group)
    ∷ ("Invalid operation", Code.err_op)
    ∷ ("Invalid topology", Code.err_topology)
    ∷ ("Invalid dimension argument", Code.err_dims)
    ∷ ("Invalid argument", Code.err_arg)
    ∷ ("Unknown error", Code.err_unknown)
    ∷ ("Message truncated on receive", Code.err_truncate)
    ∷ ("Other error", Code.err_other)
    ∷ ("Internal MPI error", Code.err_intern)
    ∷ ("Operation not complete", Code.err_pending)
    ∷ ("Error available in status", Code.err_in_status)
    ∷ []

class_of_message : Option String → Code
class_of_message none = Code.success
class_of_message (some m) = class_of_text texts m

class_of_message-message : (c : Code) → class_of_message (message c) ≡ class c
unfolding class_of_message class_of_text message
class_of_message-message Code.success = refl
class_of_message-message _ = refl

-- Two codes that raise with the same message are of the same class: all codes without a `case`
-- share one class with MPI_ERR_UNKNOWN, and every other code has a message of its own.
pub message-injective : (c d : Code) → mpi_exception c ≡ mpi_exception d → class c ≡ class d
unfolding mpi_exception
message-injective c d h =
    sym (class_of_message-message c) ∙ ap class_of_message same ∙ class_of_message-message d
  where
    same : message c ≡ message d
    same = ground arith

pub mpi_exception_success : mpi_exception Code.success ≡ ok tt
unfolding mpi_exception message
mpi_exception_success = refl

pub mpi_exception_arg : mpi_exception Code.err_arg ≡ raised (mpi_error "Invalid argument")
unfolding mpi_exception message
mpi_exception_arg = refl

pub mpi_exception_intern : mpi_exception Code.err_intern ≡ raised (mpi_error "Internal MPI error")
unfolding mpi_exception message
mpi_exception_intern = refl

pub mpi_exception_raises :
    (c : Code) → c ≢ Code.success → (m : String) × (mpi_exception c ≡ raised (mpi_error m))
unfolding mpi_exception message
mpi_exception_raises Code.success h = absurd (h refl)
mpi_exception_raises _ h = (_, refl)

pub Code-cases : (c : Code) → (c ≡ Code.success) ⊎ (c ≢ Code.success)
Code-cases Code.success = inl refl
Code-cases _ = inr (λ h. cc)
