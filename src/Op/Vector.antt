-- ===== src/Op/Vector.antt =====
-- The vectors that MPI hands to a reduction function: flat bytes, `size` for each element.
use mpi_ruby.Base.{
  take_all, ℕ, zero, suc, ◌+◌, ◌≤◌, ◌≡◌, ℤ, pos, negsuc, Bool, false, ◌&&◌, ◌++◌, length, take,
  drop, if◌then◌else◌, leb, ltb, take-length, drop-length, drop-append, length-append, arith,
}
use mpi_ruby.Ruby.{Bytes, Outcome, ok, fault, Fault}
use mpi_ruby.State.{M, pure, ◌>>=◌}

-- `rb_str_new(p + off, n)`
unfoldable pub chunk : ℕ → ℕ → Bytes → Outcome Bytes
chunk off n bs =
    if leb (off + n) (length bs) then ok (take n (drop off bs)) else fault Fault.out_of_bounds

-- `MEMCPY(dst + off, src, char, n)`; a negative count is a huge one.
unfoldable pub memcpy : Bytes → ℕ → Bytes → ℤ → Outcome Bytes
memcpy dst off src (negsuc _) = fault Fault.out_of_bounds
memcpy dst off src (pos n) =
    if leb n (length src) && leb (off + n) (length dst)
    then ok (take off dst ++ (take n src ++ drop (off + n) dst))
    else fault Fault.out_of_bounds

-- `for (i = 0; i < *len; i++)` over the vector that the body writes.
unfoldable pub for_elements : ℕ → ℕ → (ℕ → Bytes → M Bytes) → Bytes → M Bytes
for_elements zero i body v = pure v
for_elements (suc n) i body v = do v' ← body i v; for_elements n (suc i) body v'

-- `size < n`
abbrev pub exceeds : ℤ → ℕ → Bool
exceeds (pos n) size = ltb size n
exceeds (negsuc _) size = false

-- An element is read where the elements before it end.
pub chunk-append : (pre a rest : Bytes) → chunk (length pre) (length a) (pre ++ (a ++ rest)) ≡ ok a
unfolding chunk
chunk-append pre a rest = ground (
  arith,
  length-append pre (a ++ rest),
  length-append a rest,
  drop-length pre (a ++ rest),
  take-length a rest,
)

-- A copy of the head of `src` over the head of an element leaves the rest of the vector.
pub memcpy-take :
    (n : ℕ) (pre src tail : Bytes)
    → n ≤ length src
    → n ≤ length tail
    → memcpy (pre ++ tail) (length pre) src (pos n) ≡ ok (pre ++ (take n src ++ drop n tail))
unfolding memcpy
memcpy-take n pre src tail hs ht =
    ground (arith, length-append pre tail, take-length pre tail, drop-append pre tail n)

pub memcpy-append :
    (pre src tail : Bytes)
    → length src ≤ length tail
    → memcpy (pre ++ tail) (length pre) src (pos (length src))
      ≡ ok (pre ++ (src ++ drop (length src) tail))
memcpy-append pre src tail h = ground (arith, memcpy-take (length src) pre src tail, take_all src)
