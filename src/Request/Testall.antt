-- ===== src/Request/Testall.antt =====
-- mpi_request.c: when `testall` asks MPI.
use mpi_ruby.Base.{
  ℕ, ◌≡◌, subst, refl, true, false, List, [], ◌∷◌, Option, none, some, map, get_elem?, arith, ◌↔◌,
  inl, inr, Bool-cases,
}
use mpi_ruby.Ruby.{Value, ok, rb_bool, is_nonzero}
use mpi_ruby.Mpi.{Call, Status, Env, Reply}
use mpi_ruby.State.{Request, World, M, pure, ◌>>=◌, ◌>>◌}
use mpi_ruby.State.Keeps.{Yields, Gives, Gives-then}
use mpi_ruby.Request.Lifecycle.{awaits_size}
use mpi_ruby.Request.Many.{any_awaits, call_many, null_each}
use mpi_ruby.Request.Testing.{ready_handles, request_testall}

-- The structs at the addresses.
abbrev pub Structs : List ℕ → List Request → World → Type 0
Structs [] [] w = Unit
Structs [] (_ ∷ _) w = ⊥
Structs (_ ∷ _) [] w = ⊥
Structs (a ∷ rest) (mr ∷ mrs) w = (get_elem? w.heap a ≡ some (some mr)) × Structs rest mrs w

ready_handles-await :
    (rreqs : List ℕ) (mrs : List Request) (w : World)
    → Structs rreqs mrs w
    → any_awaits mrs ≡ true
    → ready_handles rreqs w ≡ (ok none, w)
unfolding ready_handles any_awaits
ready_handles-await [] [] w h e = cc
ready_handles-await [] (_ ∷ _) w h e = absurd h
ready_handles-await (_ ∷ _) [] w h e = absurd h
ready_handles-await (a ∷ rest) (mr ∷ mrs) w (h, hs) e = elim (Bool-cases (awaits_size mr)) [
  | inl awaits ↦ ground (arith, h, awaits)
  | inr ready ↦
      ground (arith, h, ready, ready_handles-await rest mrs w hs (ground (arith, ready, e)))
]

ready_handles-ready :
    (rreqs : List ℕ) (mrs : List Request) (w : World)
    → Structs rreqs mrs w
    → any_awaits mrs ≡ false
    → ready_handles rreqs w ≡ (ok (some (map (λ mr. mr.handle) mrs)), w)
unfolding ready_handles any_awaits
ready_handles-ready [] [] w h e = refl
ready_handles-ready [] (_ ∷ _) w h e = absurd h
ready_handles-ready (_ ∷ _) [] w h e = absurd h
ready_handles-ready (a ∷ rest) (mr ∷ mrs) w (h, hs) e =
    let ready : awaits_size mr ≡ false = ground (arith, e) in
    ground (arith, h, ready, ready_handles-ready rest mrs w hs (ground (arith, ready, e)))

request_testall-awaiting :
    (env : Env) (rreqs : List ℕ) (mrs : List Request) (w : World)
    → Structs rreqs mrs w
    → any_awaits mrs ≡ true
    → request_testall env rreqs w ≡ (ok (Value.qfalse, none), w)
unfolding request_testall
request_testall-awaiting env rreqs mrs w h e = ground (arith, ready_handles-await rreqs mrs w h e)

-- The result has statuses.
abbrev HasStatuses : Value × Option (List Status) → Type 0
HasStatuses (v, none) = ⊥
HasStatuses (v, some stats) = Unit

-- What is left of `testall` once it has the handles.
abbrev asked : Env → List ℕ → List ℕ → M (Value × Option (List Status))
asked env rreqs hs = do
  r ← call_many env (Call.testall hs) rreqs
  null_each env rreqs r.handles
  pure (rb_bool (is_nonzero r.out0), some r.statuses)

asked-HasStatuses :
    (env : Env) (rreqs hs : List ℕ) → Gives (λ _. Unit) HasStatuses (asked env rreqs hs)
asked-HasStatuses env rreqs hs =
    let answer : Reply → M (Value × Option (List Status)) =
      λ r. pure (rb_bool (is_nonzero r.out0), some r.statuses) in
    let k : Reply → M (Value × Option (List Status)) =
      λ r. null_each env rreqs r.handles >>= (λ _. answer r) in
    Gives-then (λ _. Unit) HasStatuses (call_many env (Call.testall hs) rreqs) k (λ _ _. tt)
      (λ r.
        Gives-then (λ _. Unit) HasStatuses (null_each env rreqs r.handles) (λ _. answer r)
          (λ _ _. tt) (λ _ _ _. tt))

request_testall-asked :
    (env : Env) (rreqs : List ℕ) (mrs : List Request) (w : World)
    → Structs rreqs mrs w
    → any_awaits mrs ≡ false
    → request_testall env rreqs w ≡ asked env rreqs (map (λ mr. mr.handle) mrs) w
unfolding request_testall
request_testall-asked env rreqs mrs w h e = ground (arith, ready_handles-ready rreqs mrs w h e)

-- `testall` on requests whose structs are `mrs` answers `[false, nil]` and leaves the state as it
-- is, without a call of MPI, exactly when a receive among them awaits its size.
pub request_testall-await :
    (env : Env) (rreqs : List ℕ) (mrs : List Request) (w : World)
    → Structs rreqs mrs w
    → (request_testall env rreqs w ≡ (ok (Value.qfalse, none), w)) ↔ (any_awaits mrs ≡ true)
request_testall-await env rreqs mrs w h = (to, request_testall-awaiting env rreqs mrs w h)
  where
    to : request_testall env rreqs w ≡ (ok (Value.qfalse, none), w) → any_awaits mrs ≡ true
    to same = elim (Bool-cases (any_awaits mrs)) [
      | inl awaits ↦ awaits
      | inr ready ↦
          let same' : asked env rreqs (map (λ mr. mr.handle) mrs) w ≡ (ok (Value.qfalse, none), w) =
            cc (same, request_testall-asked env rreqs mrs w h ready) in
          absurd (
            subst (λ r. Yields HasStatuses r.0) same'
              (asked-HasStatuses env rreqs (map (λ mr. mr.handle) mrs) w tt))
    ]
