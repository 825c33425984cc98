-- ===== src/Request/Sane.antt =====
-- mpi_request.c and mpi_comm.c: what makes, starts and finalises requests keeps them in order.
use mpi_ruby.Base.{
  ℕ, zero, suc, ◌≡◌, ◌≢◌, refl, ap, sym, subst, ◌∙◌, ◌⊎◌, inl, inr, List, [], ◌∷◌, ◌++◌, Option,
  none, some, length, get_elem?, set, get_elem?-set_ne, get_elem?-lt, if◌then◌else◌, ◌==◌, arith,
}
use mpi_ruby.Ruby.{ok}
use mpi_ruby.Mpi.{Call, Env}
use mpi_ruby.State.{Request, ReqType, Entry, World, M, ◌>>◌, lift, load, checked}
use mpi_ruby.State.Keeps.{Keeps, Keeps-load, Keeps-then, Keeps-checked, Moves}
use mpi_ruby.Request.Memory.{NewRequest, new_struct, request_new, request_free, free_buf}
use mpi_ruby.Request.Start.{request_start}
use mpi_ruby.Request.Discipline.{Postable}
use mpi_ruby.Request.Tidy.{HasMemory, IsSize, Kinds, Tidy}
use mpi_ruby.Request.TidyStart.{Tidy-weaken, Tidy-request_start}

-- The requests are in order, and at least `room` cells of the list are free.
abbrev pub Sane : ℕ → World → Type 0
Sane room w = (types : ℕ → ReqType) × Tidy types room [] w

pub Sane-weaken : (w : World) → Sane 1 w → Sane 0 w
Sane-weaken w (types, p) = (types, Tidy-weaken types 1 [] w p)

-- The types with that of a new address.
abbrev grown : (ℕ → ReqType) → ℕ → ReqType → ℕ → ReqType
grown types n t b = if b == n then t else types b

grown-here : (types : ℕ → ReqType) (n : ℕ) (t : ReqType) → grown types n t n ≡ t
grown-here types n t = ground arith

grown-there : (types : ℕ → ReqType) (n b : ℕ) (t : ReqType) → b ≢ n → grown types n t b ≡ types b
grown-there types n b t ne = ground (arith, ne)

-- What a longer list has at an index.
append-cases :
    (heap : List (Option Request)) (o p : Option Request) (b : ℕ)
    → get_elem? (heap ++ (o ∷ [])) b ≡ some p
    → (get_elem? heap b ≡ some p) ⊎ ((b ≡ length heap) × (p ≡ o))
append-cases [] o p zero h = inr (refl, ground (arith, h))
append-cases [] o p (suc b) h = cc
append-cases (x ∷ heap) o p zero h = inl h
append-cases (x ∷ heap) o p (suc b) h = elim (append-cases heap o p b h) [
  | inl there ↦ inl there
  | inr (e, same) ↦ inr (ap suc e, same)
]

get_elem?-append :
    (heap : List (Option Request)) (o p : Option Request) (b : ℕ)
    → get_elem? heap b ≡ some p
    → get_elem? (heap ++ (o ∷ [])) b ≡ some p
get_elem?-append [] o p b h = cc
get_elem?-append (x ∷ heap) o p zero h = h
get_elem?-append (x ∷ heap) o p (suc b) h = get_elem?-append heap o p b h

-- A struct is not the one that was freed.
unfreed :
    (heap : List (Option Request)) (i b : ℕ) {m : Request}
    → get_elem? (set heap i none) b ≡ some (some m)
    → get_elem? heap b ≡ some (some m)
unfreed [] i b h = h
unfreed (x ∷ heap) zero zero h = cc
unfreed (x ∷ heap) zero (suc b) h = h
unfreed (x ∷ heap) (suc i) zero h = h
unfreed (x ∷ heap) (suc i) (suc b) h = unfreed heap i b h

-- No cell of the list has the request.
abbrev pub Unlisted : ℕ → World → Type 0
Unlisted self w = (k : ℕ) → get_elem? w.rlist k ≢ some (Entry.entry self)

-- The struct that `request_new` makes is as its type says.
Postable-new_struct :
    (raw : Request) (args : NewRequest)
    → (new_struct raw args).type ≡ ReqType.receive
    → Postable IsSize (new_struct raw args)
unfolding new_struct
Postable-new_struct raw (NewRequest.of_normal req) h = cc
Postable-new_struct raw (NewRequest.of_send type obj peer tag comm) h = (refl, omega arith)
Postable-new_struct raw (NewRequest.of_receive peer tag comm) h = (refl, omega arith)

module _ (room : ℕ) where
  pub Sane-request_new :
      (raw : Request) (args : NewRequest) → Keeps (Sane room) (request_new raw args)
  unfolding request_new
  Sane-request_new raw args w (types, (kinds, listed, written, cap, fits, live)) =
      let mr : Request = new_struct raw args in
      let n = length w.heap in
      let types' = grown types n mr.type in
      let old : (b : ℕ) (o : Option Request) → get_elem? w.heap b ≡ some o → types' b ≡ types b =
        λ b o h.
          grown-there types n b mr.type (λ e. absurd (omega (arith, e, get_elem?-lt w.heap b h))) in
      let kinds' : Kinds types' (record w { heap = w.heap ++ (some mr ∷ []) }) = λ b m h.
        elim (append-cases w.heap (some mr) (some m) b h) [
          | inl there ↦
              subst (λ t. (m.type ≡ t) × (t ≡ ReqType.receive → Postable IsSize m))
                (sym (old b (some m) there)) (kinds b m there)
          | inr (e, same) ↦
              let m_mr : m ≡ mr = ground (arith, same) in
              let at : types' b ≡ mr.type = ap types' e ∙ grown-here types n mr.type in
              (
                ap (λ x. x.type) m_mr ∙ sym at,
                λ r. subst (Postable IsSize) (sym m_mr) (Postable-new_struct raw args (sym at ∙ r)),
              )
        ] in
      (
        types',
        (
          kinds',
          λ k a at.
              let (r, (m, h)) = listed k a at in
              (old a (some m) h ∙ r, (m, get_elem?-append w.heap (some mr) (some m) a h)),
          written,
          cap,
          fits,
          live,
        ),
      )

  pub Sane-log : (c : Call) (w : World) → Sane room w → Sane room (record w { log = c ∷ w.log })
  Sane-log c w p = p

  -- The finaliser of a request that is not on the list.
  pub Sane-request_free :
      (env : Env) (self : ℕ) (w : World)
      → Unlisted self w
      → Sane room w
      → Sane room (request_free env self w).1
  unfolding request_free
  Sane-request_free env self w unlisted p =
      (Keeps-then P (load self)
        (λ mr. checked env (Call.request_free mr.handle) >> (lift (free_buf mr.buf) >> gone))
        (Keeps-load P self)
        (λ mr.
          Keeps-then P (checked env (Call.request_free mr.handle))
            (λ _. lift (free_buf mr.buf) >> gone)
            (Keeps-checked P env (Call.request_free mr.handle) (λ c w p. p))
            (λ _. Keeps-then P (lift (free_buf mr.buf)) (λ _. gone) (λ w p. p) (λ _. Sane-gone)))
        w (unlisted, p)).1
    where
      P : World → Type 0
      P w = Unlisted self w × Sane room w

      gone : M (Unit {0})
      gone w = (ok tt, record w { heap = set w.heap self none })

      Sane-gone : Keeps P gone
      Sane-gone w (unlisted, (types, (kinds, listed, written, cap, fits, live))) = (
        unlisted,
        (
          types,
          (
            λ b m h. kinds b m (unfreed w.heap self b h),
            λ k a at.
                let (r, (m, h)) = listed k a at in
                (
                  r,
                  (
                    m,
                    get_elem?-set_ne w.heap self a none
                          (λ e. unlisted k (at ∙ ap (λ x. some (Entry.entry x)) (sym e)))
                        ∙ h,
                  ),
                ),
            written,
            cap,
            fits,
            live,
          ),
        ),
      )

module _ (env : Env) (memory : HasMemory env) where
  pub Sane-request_start : (self : ℕ) → Moves (Sane 1) (Sane 0) (request_start env self)
  Sane-request_start self w (types, p) = (types, Tidy-request_start env memory types self w p)

  -- What a discipline keeps for whichever types, the whole keeps.
  pub Sane-any :
      {A : Type 0} (m : M A)
      → ((types : ℕ → ReqType) → Keeps (Tidy types 0 []) m)
      → Keeps (Sane 0) m
  Sane-any m h w (types, p) = (types, h types w p)
