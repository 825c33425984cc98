-- ===== src/Request/Drain.antt =====
-- mpi_request.c: a round of the polling thread moves every receive on the list on.
use mpi_ruby.Base.{
  ℕ, zero, suc, ◌≡◌, ◌≢◌, ap, sym, ◌∙◌, false, Option-cases, inl, inr, ℤ, succ, true, List, [], ◌∷◌,
  some, get_elem?, set, set-set, get_elem?-set_over, ◌==◌, Bool-cases, subst, get_elem?-set_ne,
  arith,
}
use mpi_ruby.Ruby.{ok, is_nonzero}
use mpi_ruby.Mpi.{Call, Code, Reply, Env}
use mpi_ruby.Exception.Laws.{mpi_exception_success}
use mpi_ruby.State.{Request, Stage, Entry, World}
use mpi_ruby.Request.Memory.{free_buf}
use mpi_ruby.Request.Lifecycle.{with_size}
use mpi_ruby.Request.Receive.Steps.{data_receive, with_receive}
use mpi_ruby.Request.Posting.{post_data-stored}
use mpi_ruby.Request.Poll.{poll_request}
use mpi_ruby.Request.Discipline.{Postable}

-- There is memory for that many bytes and a NUL.
abbrev pub Allocates : Env → ℤ → Type 0
Allocates env n = env.alloc_n (succ n) ≡ ok tt

-- The sizes of all pending receives have arrived, and there is memory for the objects.
abbrev pub Arrives : Env → Type 0
Arrives env =
    ((log : List Call) (handle : ℕ) → (env.reply log (Call.test handle)).rv ≡ Code.success)
    × ((log : List Call) (handle : ℕ) → is_nonzero (env.reply log (Call.test handle)).out0 ≡ true)
    × ((log : List Call) (c : Call) (n : ℤ) → (env.reply log c).arrived ≡ some n → Allocates env n)

pub free_buf-with_size :
    (r : Reply) (mr : Request) → free_buf mr.buf ≡ ok tt → free_buf (with_size r mr).buf ≡ ok tt
free_buf-with_size r mr free = elim (Option-cases r.arrived) [
  | inl e ↦ ground (arith, e, free)
  | inr (n, e) ↦ ground (arith, e, free)
]

-- What a wait or a test of MPI writes: a number that arrives is a size.
pub Postable-with_size :
    (Size : ℤ → Type 0) (r : Reply) (mr : Request)
    → ((n : ℤ) → r.arrived ≡ some n → Size n)
    → Postable Size mr
    → Postable Size (with_size r mr)
Postable-with_size Size r mr sized (free, len) = (
  free_buf-with_size r mr free,
  elim (Option-cases r.arrived) [
    | inl e ↦ subst Size (sym (ground (arith, e))) len
    | inr (n, e) ↦ subst Size (sym (ground (arith, e))) (sized n e)
  ],
)

-- A store over the struct at `a`, and the rest of the `if (flag)` block from there on.
pub moved_on-lem :
    (env : Env) (i a : ℕ) (mr mr₂ : Request) (w : World)
    → Arrives env
    → get_elem? w.heap a ≡ some (some mr)
    → Postable (Allocates env) mr
    → mr₂ ≡ record (with_size (env.reply w.log (Call.test mr.handle)) mr) {
      peer = (env.reply w.log (Call.test mr.handle)).status.source;
    }
    → poll_request env i a w ≡ (
      ok tt,
      record w {
        log = data_receive mr₂ mr₂.buflen ∷ Call.test mr.handle ∷ w.log;
        heap = set w.heap a (
            some (record (with_receive env mr₂ (Call.test mr.handle ∷ w.log)) {
              stage = Stage.tx_data;
            }));
        rlist = set w.rlist i Entry.empty;
      },
    )
unfolding poll_request
moved_on-lem env i a mr mr₂ w (good, flag, room) h ready same =
    let log₁ = Call.test mr.handle ∷ w.log in
    let r = env.reply w.log (Call.test mr.handle) in
    let mr₁ = with_size r mr in
    let w₁ : World = record w { log = log₁; heap = set w.heap a (some mr₁) } in
    let w₂ : World = record w { log = log₁; heap = set w.heap a (some mr₂) } in
    let ready₁ = Postable-with_size (Allocates env) r mr (room w.log (Call.test mr.handle)) ready in
    let (free₂, room₂) =
      subst (Postable (Allocates env)) (sym same)
        (let x : Postable (Allocates env) (record mr₁ { peer = r.status.source }) = ready₁ in x) in
    let posted = post_data-stored env false a mr₂ w₂ room₂ free₂ in
    ground (
      arith,
      h,
      good w.log mr.handle,
      flag w.log mr.handle,
      mpi_exception_success,
      sym same,
      set-set w.heap a (some mr₁) (some mr₂),
      set-set w.heap a (some mr₂) (some (with_receive env mr₂ log₁)),
      set-set w.heap a (some (with_receive env mr₂ log₁))
          (some (record (with_receive env mr₂ log₁) { stage = Stage.tx_data })),
      posted,
    )

-- The structs of the requests on the list are there, and what comes next can be posted.
abbrev pub Pollable : Env → World → Type 0
Pollable env w =
    (k a : ℕ)
    → get_elem? w.rlist k ≡ some (Entry.entry a)
    → (mr : Request) × (get_elem? w.heap a ≡ some (some mr)) × Postable (Allocates env) mr

-- The receive is in its second stage.
abbrev pub InData : ℕ → World → Type 0
InData a w = (mr : Request) × (get_elem? w.heap a ≡ some (some mr)) × (mr.stage ≡ Stage.tx_data)

-- From `w` to `w'` nothing leaves the second stage, and the cell `k` is emptied, whose request is
-- then in the second stage.
abbrev pub Polls : Env → ℕ → World → World → Type 0
Polls env k w w' =
    Pollable env w'
    × (w'.rlist ≡ set w.rlist k Entry.empty)
    × ((b : ℕ) → InData b w → InData b w')
    × ((a : ℕ) → get_elem? w.rlist k ≡ some (Entry.entry a) → InData a w')

-- An entry of a list with a cell emptied was there before.
pub entry_before :
    (xs : List Entry) (k j b : ℕ)
    → get_elem? (set xs k Entry.empty) j ≡ some (Entry.entry b)
    → get_elem? xs j ≡ some (Entry.entry b)
entry_before [] k j b h = h
entry_before (x ∷ xs) zero zero b h = cc
entry_before (x ∷ xs) zero (suc j) b h = h
entry_before (x ∷ xs) (suc k) zero b h = h
entry_before (x ∷ xs) (suc k) (suc j) b h = entry_before xs k j b h

-- One struct is replaced by one in the second stage.
module _ (a : ℕ) (mr mr' : Request) (w w' : World) (h : get_elem? w.heap a ≡ some (some mr))
    (e : w'.heap ≡ set w.heap a (some mr')) where
  here : get_elem? w'.heap a ≡ some (some mr')
  here = ap (λ t. get_elem? t a) e ∙ get_elem?-set_over w.heap a (some mr') h

  there : (b : ℕ) → a ≢ b → get_elem? w'.heap b ≡ get_elem? w.heap b
  there b ne = ap (λ t. get_elem? t b) e ∙ get_elem?-set_ne w.heap a b (some mr') ne

  pub InData-stored : mr'.stage ≡ Stage.tx_data → (b : ℕ) → InData b w → InData b w'
  InData-stored data_stage b (mrb, hb, sb) = elim (Bool-cases (a == b)) [
    | inl same ↦
        let ab : a ≡ b = ground (arith, same) in
        (mr', subst (λ t. get_elem? w'.heap t ≡ some (some mr')) ab here, data_stage)
    | inr differ ↦ (mrb, there b (ground (arith, differ)) ∙ hb, sb)
  ]

  pub Pollable-stored :
      (env : Env) (k : ℕ)
      → Postable (Allocates env) mr'
      → w'.rlist ≡ set w.rlist k Entry.empty
      → Pollable env w
      → Pollable env w'
  Pollable-stored env k free r p j b at = elim (Bool-cases (a == b)) [
    | inl same ↦
        let ab : a ≡ b = ground (arith, same) in
        (mr', subst (λ t. get_elem? w'.heap t ≡ some (some mr')) ab here, free)
    | inr differ ↦
        let (mrb, hb, fb) = p j b (was j b at) in (mrb, there b (ground (arith, differ)) ∙ hb, fb)
  ]
    where
      was :
          (j b : ℕ)
          → get_elem? w'.rlist j ≡ some (Entry.entry b)
          → get_elem? w.rlist j ≡ some (Entry.entry b)
      was j b at = entry_before w.rlist k j b (ap (λ t. get_elem? t j) (sym r) ∙ at)
