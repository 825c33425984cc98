-- ===== src/Request/Tidy.antt =====
-- mpi_request.c: the state of the requests, in order: the entries of the list are live receives,
-- whose buffers may be freed, and no cell of it is unwritten.
use mpi_ruby.Base.{
  ℕ, zero, suc, ◌+◌, ◌≤◌, ◌<◌, pos, negsuc, succ, ◌≡◌, refl, ap, sym, ◌∙◌, subst, ℤ, List, [], ◌∷◌,
  Option, some, cells, length, get_elem?, set, length-set, get_elem?-set_over, get_elem?-set_ne,
  ◌==◌, Bool-cases, inl, inr, arith,
}
use mpi_ruby.Ruby.{ok}
use mpi_ruby.Mpi.{Call, Env}
use mpi_ruby.State.{Request, ReqType, Entry, World}
use mpi_ruby.Request.Discipline.{AllSizes, Postable}
use mpi_ruby.Request.Drain.{entry_before}
use mpi_ruby.Request.Refines.{requests, IsWritten, IsWritten-set_empty}

-- A length such that it and its NUL are counted by an int of 32 bits.
abbrev pub IsSize : ℤ → Type 0
IsSize (pos k) = suc k < 2147483648
IsSize (negsuc _) = ⊥

-- There is memory for as many bytes as an int counts, and every length that arrives is a size.
abbrev pub HasMemory : Env → Type 0
HasMemory env =
    ((k : ℕ) → k < 2147483648 → env.alloc_n (pos k) ≡ ok tt)
    × ((log : List Call) (c : Call) (n : ℤ) → (env.reply log c).arrived ≡ some n → IsSize n)
    × ((log : List Call) (c : Call) → AllSizes IsSize (env.reply log c).arrivals)

pub memory_for : (env : Env) (n : ℤ) → HasMemory env → IsSize n → env.alloc_n (succ n) ≡ ok tt
memory_for env (pos k) (room, _, _) h = room (suc k) h
memory_for env (negsuc k) memory h = absurd h

-- The struct has the type that goes with the address; that of a receive can be posted.
abbrev pub Kind : (ℕ → ReqType) → ℕ → Request → Type 0
Kind types b mr = (mr.type ≡ types b) × (types b ≡ ReqType.receive → Postable IsSize mr)

abbrev pub Live : ℕ → World → Type 0
Live a w = (mr : Request) × (get_elem? w.heap a ≡ some (some mr))

abbrev pub AllLive : List ℕ → World → Type 0
AllLive [] w = Unit
AllLive (a ∷ others) w = Live a w × AllLive others w

abbrev pub Kinds : (ℕ → ReqType) → World → Type 0
Kinds types w = (b : ℕ) (mr : Request) → get_elem? w.heap b ≡ some (some mr) → Kind types b mr

abbrev pub Listed : (ℕ → ReqType) → World → Type 0
Listed types w =
    (k a : ℕ) → get_elem? w.rlist k ≡ some (Entry.entry a) → (types a ≡ ReqType.receive) × Live a w

-- At least `room` cells are free, and the structs at `pins` are live.
abbrev pub Tidy : (ℕ → ReqType) → ℕ → List ℕ → World → Type 0
Tidy types room pins w =
    Kinds types w
    × Listed types w
    × IsWritten w.rlist
    × (w.capacity ≡ length w.rlist)
    × (length (requests w.rlist) + room ≤ length w.rlist)
    × AllLive pins w

Live-store :
    (b a : ℕ) (mr : Request) (w : World)
    → Live a w
    → Live a (record w { heap = set w.heap b (some mr) })
Live-store b a mr w (mra, h) = elim (Bool-cases (b == a)) [
  | inl same ↦
      let ba : b ≡ a = ground (arith, same) in
      (
        mr,
        subst (λ t. get_elem? (set w.heap t (some mr)) a ≡ some (some mr)) (sym ba)
            (get_elem?-set_over w.heap a (some mr) h),
      )
  | inr differ ↦ (mra, get_elem?-set_ne w.heap b a (some mr) (ground (arith, differ)) ∙ h)
]

AllLive-store :
    (b : ℕ) (others : List ℕ) (mr : Request) (w : World)
    → AllLive others w
    → AllLive others (record w { heap = set w.heap b (some mr) })
AllLive-store b [] mr w l = tt
AllLive-store b (a ∷ others) mr w (la, l) = (Live-store b a mr w la, AllLive-store b others mr w l)

AllLive-same :
    (others : List ℕ) (w w' : World) → w'.heap ≡ w.heap → AllLive others w → AllLive others w'
AllLive-same [] w w' e l = tt
AllLive-same (a ∷ others) w w' e ((mr, h), l) =
    ((mr, ap (λ t. get_elem? t a) e ∙ h), AllLive-same others w w' e l)

-- What is read back at the address of a store.
read_back :
    (heap : List (Option Request)) (i : ℕ) (x y : Request)
    → get_elem? (set heap i (some x)) i ≡ some (some y)
    → y ≡ x
read_back [] i x y h = cc
read_back (_ ∷ heap) zero x y h = ground (arith, h)
read_back (_ ∷ heap) (suc i) x y h = read_back heap i x y h

Kinds-store :
    (types : ℕ → ReqType) (b : ℕ) (mr : Request) (w : World)
    → Kind types b mr
    → Kinds types w
    → Kinds types (record w { heap = set w.heap b (some mr) })
Kinds-store types b mr w kind p a mra h = elim (Bool-cases (b == a)) [
  | inl same ↦
      let ba : b ≡ a = ground (arith, same) in
      let e : mra ≡ mr =
        read_back w.heap a mr mra
          (subst (λ t. get_elem? (set w.heap t (some mr)) a ≡ some (some mra)) ba h) in
      subst (λ t. Kind types t mra) ba (subst (λ m. Kind types b m) (sym e) kind)
  | inr differ ↦ p a mra (sym (get_elem?-set_ne w.heap b a (some mr) (ground (arith, differ))) ∙ h)
]

pub requests-set_empty :
    (cells : List Entry) (k : ℕ)
    → length (requests (set cells k Entry.empty)) ≤ length (requests cells)
requests-set_empty [] k = omega arith
requests-set_empty (Entry.entry _ ∷ cells) zero = omega arith
requests-set_empty (Entry.empty ∷ cells) zero = omega arith
requests-set_empty (Entry.unwritten ∷ cells) zero = omega arith
requests-set_empty (Entry.entry _ ∷ cells) (suc k) = omega (arith, requests-set_empty cells k)
requests-set_empty (Entry.empty ∷ cells) (suc k) = requests-set_empty cells k
requests-set_empty (Entry.unwritten ∷ cells) (suc k) = requests-set_empty cells k

module _ (types : ℕ → ReqType) (room : ℕ) (pins : List ℕ) where
  pub Tidy-store :
      (b : ℕ) (mr : Request) (w : World)
      → Kind types b mr
      → Tidy types room pins w
      → Tidy types room pins (record w { heap = set w.heap b (some mr) })
  Tidy-store b mr w kind (kinds, listed, written, cap, fits, live) = (
    Kinds-store types b mr w kind kinds,
    λ k a at. let (r, la) = listed k a at in (r, Live-store b a mr w la),
    written,
    cap,
    fits,
    AllLive-store b pins mr w live,
  )

  pub Tidy-empty :
      (k : ℕ) (w : World)
      → Tidy types room pins w
      → Tidy types room pins (record w { rlist = set w.rlist k Entry.empty })
  Tidy-empty k w (kinds, listed, written, cap, fits, live) = (
    kinds,
    λ j a at. listed j a (entry_before w.rlist k j a at),
    IsWritten-set_empty w.rlist k written,
    cap ∙ sym (length-set w.rlist k Entry.empty),
    omega (arith, fits, requests-set_empty w.rlist k, length-set w.rlist k Entry.empty),
    AllLive-same pins w (record w { rlist = set w.rlist k Entry.empty }) refl live,
  )

  pub Tidy-log :
      (c : Call) (w : World)
      → Tidy types room pins w
      → Tidy types room pins (record w { log = c ∷ w.log })
  Tidy-log c w (kinds, listed, written, cap, fits, live) = (
    kinds,
    listed,
    written,
    cap,
    fits,
    AllLive-same pins w (record w { log = c ∷ w.log }) refl live,
  )
