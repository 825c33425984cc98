-- ===== src/Request/Parts.antt =====
-- mpi_request.c: the parts of waiting for several requests keep an invariant.
use mpi_ruby.Base.{
  ℕ, ◌+◌, ℤ, pos, pos_part, Bool, true, false, List, [], ◌∷◌, Option, none, some, set, cells,
  get_elem?,
}
use mpi_ruby.Ruby.{Outcome, ok, raised, fault}
use mpi_ruby.Mpi.{Reply, Status, Env}
use mpi_ruby.State.{Request, Entry, World, M, pure, ◌>>=◌, ◌>>◌, lift}
use mpi_ruby.State.Keeps.{Keeps-then, Keeps-bind}
use mpi_ruby.Request.Watch.{request_unwatch, find_entry}
use mpi_ruby.Request.Lifecycle.{awaits_size, post_data}
use mpi_ruby.Request.Many.{null_at, array_at}
use mpi_ruby.Request.Testing.{SomeResult, collect, ready_handles}
use mpi_ruby.Request.Discipline.{Discipline, Leaves, Leaves-loaded, Leaves-null_at, Leaves-lift}

-- What `request_unwatch` does with the cell that it finds.
abbrev cleared : Outcome (Option ℕ) → World → Outcome (Unit {0}) × World
cleared o w = elim o [
  | ok (some i) ↦ (ok tt, record w { rlist = set w.rlist i Entry.empty })
  | ok none ↦ (ok tt, w)
  | raised e ↦ (raised e, w)
  | fault f ↦ (fault f, w)
]

-- One step of the first loop of `testall`.
abbrev ready_rest : List ℕ → Request → Bool → M (Option (List ℕ))
ready_rest bs mr c = elim c [
  | true ↦ pure none
  | false ↦ do
    reqs ← ready_handles bs
    pure (elim reqs [ none ↦ none | some hs ↦ some (mr.handle ∷ hs) ])
]

module _ (env : Env) (d : Discipline env) where
  -- What a block does after a part that leaves the object.
  pub Leaves-then :
      {A B : Type 0} (m : M A) (f : A → M B)
      → Leaves env d m
      → ((x : A) → Leaves env d (f x))
      → Leaves env d (m >>= f)
  Leaves-then m f hm hf = Keeps-then (d.Holds) m f hm hf

  Leaves-collect :
      (bs : List ℕ) (r : Reply) (i : ℕ) (indices : List ℤ)
      → Leaves env d (collect env bs r i indices)
  unfolding collect
  Leaves-collect bs r i [] = λ w p. p
  Leaves-collect bs r i (index ∷ rest) =
      let entry : Status → List (Option ℕ × Status) → M (List (Option ℕ × Status)) =
        λ stat more. pure ((get_elem? bs (pos_part index), stat) ∷ more) in
      let k₁ : Status → M (List (Option ℕ × Status)) =
        λ stat. collect env bs r (i + 1) rest >>= entry stat in
      let k₂ : ℕ → M (List (Option ℕ × Status)) =
        λ req. null_at env req bs (pos i) >> (lift (array_at r.statuses index) >>= k₁) in
      Leaves-lift env d (array_at r.handles index) k₂ λ req.
        Leaves-then (null_at env req bs (pos i)) (λ _. lift (array_at r.statuses index) >>= k₁)
          (Leaves-null_at env d req bs (pos i))
          (λ _. Leaves-lift env d (array_at r.statuses index) k₁ λ stat.
            Leaves-then (collect env bs r (i + 1) rest) (entry stat)
              (Leaves-collect bs r (i + 1) rest) (λ more w p. p))

  -- The same with the test on what MPI answered.
  pub Leaves-collected :
      (bs : List ℕ) (r : Reply) (c : Bool)
      → Leaves env d (elim c [
        | true ↦ pure SomeResult.undefined
        | false ↦ collect env bs r 0 (cells (pos_part r.out0) env.junk_int r.array0) >>= λ found.
            pure (SomeResult.done found)
      ])
  Leaves-collected bs r true = λ w p. p
  Leaves-collected bs r false =
      let indices = cells (pos_part r.out0) env.junk_int r.array0 in
      Leaves-then (collect env bs r 0 indices) (λ found. pure (SomeResult.done found))
        (Leaves-collect bs r 0 indices) (λ found w p. p)

  pub Leaves-ready_handles : (bs : List ℕ) → Leaves env d (ready_handles bs)
  unfolding ready_handles
  Leaves-ready_handles [] = λ w p. p
  Leaves-ready_handles (b ∷ bs) =
      Leaves-loaded env d b (λ mr. ready_rest bs mr (awaits_size mr))
        (λ mr fit. go mr (Leaves-ready_handles bs) (awaits_size mr))
    where
      go :
          (mr : Request)
          → Leaves env d (ready_handles bs)
          → (c : Bool) → Leaves env d (ready_rest bs mr c)
      go mr rest true = λ w p. p
      go mr rest false =
          Leaves-then (ready_handles bs)
            (λ reqs. pure (elim reqs [ none ↦ none | some hs ↦ some (mr.handle ∷ hs) ])) rest
            (λ reqs w p. p)

  pub Leaves-request_unwatch : (b : ℕ) → Leaves env d (request_unwatch b)
  unfolding request_unwatch
  Leaves-request_unwatch b w p = go (find_entry b w.capacity w.rlist 0)
    where
      go : (o : Outcome (Option ℕ)) → d.Holds (cleared o w).1
      go (ok none) = p
      go (ok (some i)) = d.empties i w p
      go (raised e) = p
      go (fault f) = p

  -- The second receive is posted, and something done with the struct.
  pub Leaves-post_data :
      {B : Type 0} (checks : Bool) (b : ℕ) (mr : Request) (f : Request → M B)
      → d.Fits b mr
      → ((mr' : Request) → d.Fits b mr' → Leaves env d (f mr'))
      → Leaves env d (post_data env checks b mr >>= f)
  Leaves-post_data checks b mr f fit hf =
      Keeps-bind d.Holds (d.Fits b) (post_data env checks b mr) f (d.posts checks b mr fit)
        (d.posted checks b mr fit) hf
