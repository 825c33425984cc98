-- ===== src/Request/TidyPost.antt =====
-- mpi_request.c: `post_data` keeps the state of the requests in order, where there is memory for what arrives.
use mpi_ruby.Base.{ℕ, ◌≢◌, refl, ◌∙◌, succ, Bool, List, ◌∷◌}
use mpi_ruby.Ruby.{Outcome, ok, raised, fault}
use mpi_ruby.Mpi.{Call, Env}
use mpi_ruby.State.{Request, ReqType, World}
use mpi_ruby.State.Keeps.{Yields}
use mpi_ruby.Request.Memory.{freed}
use mpi_ruby.Request.Lifecycle.{post_data}
use mpi_ruby.Request.Receive.Steps.{data_receive, with_receive}
use mpi_ruby.Request.Posting.{then_struct, checked_code, post_data-cases}
use mpi_ruby.Request.Discipline.{Discipline}
use mpi_ruby.Request.Tidy.{
  HasMemory, IsSize, memory_for, Kind, Tidy, Tidy-store, Tidy-empty, Tidy-log,
}

Yields-then_struct :
    (Q : Request → Type 0) (o : Outcome (Unit {0})) (mr : Request)
    → Q mr
    → Yields Q (then_struct o mr)
Yields-then_struct Q (ok _) mr q = q
Yields-then_struct Q (raised e) mr q = tt
Yields-then_struct Q (fault f) mr q = tt

module _ (env : Env) (memory : HasMemory env) (types : ℕ → ReqType) (room : ℕ) (pins : List ℕ) where
  -- The new struct has the type of the old one, and memory of its own.
  pub Kind-with_receive :
      (b : ℕ) (mr : Request) (log : List Call)
      → Kind types b mr
      → Kind types b (with_receive env mr log)
  Kind-with_receive b mr log (t, free) = (t, λ r. (refl, (free r).1))

  -- Without memory the struct is not that of a receive.
  Kind-unposted :
      (b : ℕ) (mr : Request)
      → (env.alloc_n (succ mr.buflen) ≢ ok tt)
      → Kind types b mr
      → Kind types b (record mr { buf = freed mr.buf })
  Kind-unposted b mr poor (t, free) =
      (t, λ r. absurd (poor (memory_for env mr.buflen memory (free r).1)))

  pub Tidy-post_data :
      (checks : Bool) (b : ℕ) (mr : Request)
      → Kind types b mr
      → (w : World) → Tidy types room pins w
      → Tidy types room pins (post_data env checks b mr w).1
  Tidy-post_data checks b mr kind w p =
      let mr₁ : Request = record mr { buf = freed mr.buf } in
      post_data-cases (λ r. Tidy types room pins r.1) env checks b mr w (λ x. p) (λ x. p)
        (λ x e. Tidy-store types room pins b mr₁ w (Kind-unposted b mr (λ o. cc (o, e)) kind) p)
        (λ x e. Tidy-store types room pins b mr₁ w (Kind-unposted b mr (λ o. cc (o, e)) kind) p)
        (Tidy-store types room pins b (with_receive env mr w.log)
          (record w { log = data_receive mr mr.buflen ∷ w.log }) (Kind-with_receive b mr w.log kind)
          (Tidy-log types room pins (data_receive mr mr.buflen) w p))

  pub Kind-post_data :
      (checks : Bool) (b : ℕ) (mr : Request)
      → Kind types b mr
      → (w : World) → Yields (Kind types b) (post_data env checks b mr w).0
  Kind-post_data checks b mr kind w =
      post_data-cases (λ r. Yields (Kind types b) r.0) env checks b mr w (λ x. tt) (λ x. tt)
        (λ x e. tt) (λ x e. tt)
        (Yields-then_struct (Kind types b) (checked_code env checks mr w)
          (with_receive env mr w.log) (Kind-with_receive b mr w.log kind))

  -- The order of the requests, as an invariant of the methods.
  abbrev pub tidy : Discipline env
  tidy = record {
    Holds = Tidy types room pins;
    Fits = Kind types;
    Size = IsSize;
    arrives = memory.1;
    arrivals = memory.2;
    loads = λ b mr w p h. p.0 b mr h;
    stores = Tidy-store types room pins;
    empties = Tidy-empty types room pins;
    calls = Tidy-log types room pins;
    alters = λ b mr mr' type obj free kind. (type ∙ kind.0, λ r. free (kind.1 r));
    posts = Tidy-post_data;
    posted = λ checks b mr kind w p. Kind-post_data checks b mr kind w;
  }
