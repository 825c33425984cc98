-- ===== src/Request/Bag.antt =====
-- The abstract list of pending receives: how often each request is on it, in no order.
use mathlib.Core.Quot
use mathlib.Core.Quot.{Quot, Quot-set}
use mpi_ruby.Base.{
  ℕ, suc, ◌+◌, ◌-◌, ◌≤◌, ◌≡◌, ap, List, [], ◌∷◌, length, ◌==◌, if◌then◌else◌, arith,
}

abbrev pub count : ℕ → List ℕ → ℕ
count a [] = 0
count a (b ∷ bs) = (if b == a then 1 else 0) + count a bs

-- The list without the first `a`.
abbrev pub remove : ℕ → List ℕ → List ℕ
remove a [] = []
remove a (b ∷ bs) = let rest = b ∷ remove a bs in if b == a then bs else rest

abbrev pub SameRequests : List ℕ → List ℕ → Type 0
SameRequests xs ys = (length xs ≡ length ys) × ((a : ℕ) → count a xs ≡ count a ys)

abbrev pub Bag : Type 0
Bag = Quot SameRequests

abbrev pub of_list : List ℕ → Bag
of_list = Quot.mk

count-remove :
    (a b : ℕ) (xs : List ℕ) → count b (remove a xs) ≡ count b xs - (if a == b then 1 else 0)
count-remove a b [] = ground arith
count-remove a b (x ∷ xs) = ground (arith, count-remove a b xs)

count-length : (a : ℕ) (xs : List ℕ) → count a xs ≤ length xs
count-length a [] = omega arith
count-length a (x ∷ xs) = ground (arith, count-length a xs)

length-remove :
    (a : ℕ) (xs : List ℕ) → length (remove a xs) ≡ length xs - (if count a xs == 0 then 0 else 1)
length-remove a [] = ground arith
length-remove a (x ∷ xs) = ground (arith, length-remove a xs, count-length a xs)

pub remove-SameRequests :
    (a : ℕ) (xs ys : List ℕ) → SameRequests xs ys → SameRequests (remove a xs) (remove a ys)
remove-SameRequests a xs ys (l, n) = (
  ground (arith, length-remove a xs, length-remove a ys, l, n a),
  λ b. ground (arith, count-remove a b xs, count-remove a b ys, n b),
)

unfoldable pub size : Bag → ℕ
size = Quot.lift (hlevel) length (λ xs ys h. h.0)

-- A request goes on the list.
unfoldable pub insert : ℕ → Bag → Bag
insert a =
    Quot.lift Quot-set (λ xs. of_list (a ∷ xs))
      (λ xs ys h. Quot.sound (ap suc h.0, λ b. ap (λ n. (if a == b then 1 else 0) + n) (h.1 b)))

-- A request is taken off it, once, if it is there.
unfoldable pub take_off : ℕ → Bag → Bag
take_off a =
    Quot.lift Quot-set (λ xs. of_list (remove a xs))
      (λ xs ys h. Quot.sound (remove-SameRequests a xs ys h))
