-- ===== src/Request/Posting.antt =====
-- mpi_request.c: the second receive of a request, by whether the old buffer may be freed.
use mpi_ruby.Base.{
  ℕ, ◌≡◌, refl, sym, subst, succ, pos_part, Bool, true, false, [], ◌∷◌, some, cells, set, set-set,
  arith,
}
use mpi_ruby.Ruby.{Outcome, ok, raised, fault, Fault, RubyError}
use mpi_ruby.Mpi.{Env}
use mpi_ruby.Exception.{mpi_exception}
use mpi_ruby.State.{Request, Buf, World}
use mpi_ruby.Request.Memory.{free_buf, freed}
use mpi_ruby.Request.Lifecycle.{post_data}
use mpi_ruby.Request.Receive.Steps.{data_receive, with_receive}

abbrev pub then_struct : Outcome (Unit {0}) → Request → Outcome Request
then_struct o mr = elim o [ ok _ ↦ ok mr | raised e ↦ raised e | fault f ↦ fault f ]

abbrev pub checked_code : Env → Bool → Request → World → Outcome (Unit {0})
checked_code env checks mr w = elim checks [
  | true ↦ mpi_exception (env.reply w.log (data_receive mr mr.buflen)).rv
  | false ↦ ok tt
]

-- With memory, and a buffer that may be freed, the struct is stored in its new form, whether or not
-- MPI succeeds.
pub post_data-stored :
    (env : Env) (checks : Bool) (a : ℕ) (mr : Request) (w : World)
    → env.alloc_n (succ mr.buflen) ≡ ok tt
    → free_buf mr.buf ≡ ok tt
    → post_data env checks a mr w ≡ (
      then_struct (checked_code env checks mr w) (with_receive env mr w.log),
      record w {
        log = data_receive mr mr.buflen ∷ w.log;
        heap = set w.heap a (some (with_receive env mr w.log));
      },
    )
unfolding post_data
post_data-stored env checks a mr w room free =
    let mr₁ : Request = record mr { buf = freed mr.buf } in
    let mr₂ : Request = record mr {
      buf = Buf.owned (cells (pos_part (succ mr.buflen)) env.junk_char []);
    } in
    ground (
      arith,
      room,
      free,
      set-set w.heap a (some mr₁) (some mr₂),
      set-set w.heap a (some mr₂) (some (with_receive env mr w.log)),
    )

-- A buffer that may not be freed: nothing is stored.
pub post_data-raised :
    (env : Env) (checks : Bool) (a : ℕ) (mr : Request) (w : World) (x : RubyError)
    → free_buf mr.buf ≡ raised x
    → post_data env checks a mr w ≡ (raised x, w)
unfolding post_data
post_data-raised env checks a mr w x e = ground (arith, e)

pub post_data-fault :
    (env : Env) (checks : Bool) (a : ℕ) (mr : Request) (w : World) (x : Fault)
    → free_buf mr.buf ≡ fault x
    → post_data env checks a mr w ≡ (fault x, w)
unfolding post_data
post_data-fault env checks a mr w x e = ground (arith, e)

-- Without memory the struct keeps a pointer that has been freed.
abbrev pub unposted : ℕ → Request → World → World
unposted a mr w = record w { heap = set w.heap a (some (record mr { buf = freed mr.buf })) }

pub post_data-no_memory :
    (env : Env) (checks : Bool) (a : ℕ) (mr : Request) (w : World) (x : RubyError)
    → free_buf mr.buf ≡ ok tt
    → env.alloc_n (succ mr.buflen) ≡ raised x
    → post_data env checks a mr w ≡ (raised x, unposted a mr w)
unfolding post_data
post_data-no_memory env checks a mr w x free e = ground (arith, free, e)

pub post_data-alloc_fault :
    (env : Env) (checks : Bool) (a : ℕ) (mr : Request) (w : World) (x : Fault)
    → free_buf mr.buf ≡ ok tt
    → env.alloc_n (succ mr.buflen) ≡ fault x
    → post_data env checks a mr w ≡ (fault x, unposted a mr w)
unfolding post_data
post_data-alloc_fault env checks a mr w x free e = ground (arith, free, e)

-- A statement about what `post_data` leaves, by whether the buffer may be freed and whether there
-- is memory.
pub post_data-cases :
    (P : Outcome Request × World → Type 0) (env : Env) (checks : Bool) (a : ℕ) (mr : Request)
    (w : World)
    → ((x : RubyError) → P (raised x, w))
    → ((x : Fault) → P (fault x, w))
    → ((x : RubyError) → env.alloc_n (succ mr.buflen) ≡ raised x → P (raised x, unposted a mr w))
    → ((x : Fault) → env.alloc_n (succ mr.buflen) ≡ fault x → P (fault x, unposted a mr w))
    → P (
      then_struct (checked_code env checks mr w) (with_receive env mr w.log),
      record w {
        log = data_receive mr mr.buflen ∷ w.log;
        heap = set w.heap a (some (with_receive env mr w.log));
      },
    )
    → P (post_data env checks a mr w)
post_data-cases P env checks a mr w bad worse poor broken good = freeing (free_buf mr.buf) refl
  where
    allocating :
        (o : Outcome (Unit {0}))
        → free_buf mr.buf ≡ ok tt
        → env.alloc_n (succ mr.buflen) ≡ o
        → P (post_data env checks a mr w)
    allocating (raised x) f e =
        subst P (sym (post_data-no_memory env checks a mr w x f e)) (poor x e)
    allocating (fault x) f e =
        subst P (sym (post_data-alloc_fault env checks a mr w x f e)) (broken x e)
    allocating (ok tt) f e = subst P (sym (post_data-stored env checks a mr w e f)) good

    freeing : (o : Outcome (Unit {0})) → free_buf mr.buf ≡ o → P (post_data env checks a mr w)
    freeing (raised x) e = subst P (sym (post_data-raised env checks a mr w x e)) (bad x)
    freeing (fault x) e = subst P (sym (post_data-fault env checks a mr w x e)) (worse x)
    freeing (ok tt) e = allocating (env.alloc_n (succ mr.buflen)) e refl

-- The list stays as long as it is.
pub capacity-post_data :
    (env : Env) (checks : Bool) (b : ℕ) (mr : Request) (w : World)
    → (post_data env checks b mr w).1.capacity ≡ w.capacity
capacity-post_data env checks b mr w =
    post_data-cases (λ r. r.1.capacity ≡ w.capacity) env checks b mr w (λ x. refl) (λ x. refl)
      (λ x e. refl) (λ x e. refl) refl
