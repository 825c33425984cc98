-- ===== src/Comm/Packing.antt =====
-- mpi_comm.c: the send buffer of `comm_scatter` and `comm_alltoall`, and how `comm_alltoall` takes
-- objects out of a buffer of the same form.
use mpi_ruby.Base.{
  ℕ, zero, suc, ◌+◌, ◌*◌, ◌-◌, ◌≤◌, ◌<◌, ◌≡◌, refl, ap, sym, ◌∙◌, ℤ, pos, succ, lt_int, List, [],
  ◌∷◌, ◌++◌, length, drop, cells, append_assoc, length-append, length-cells, take-length,
  if◌then◌else◌, ltb, arith,
}
use mpi_ruby.Ruby.{Value, Bytes, ok}
use mpi_ruby.Mpi.{Env}
use mpi_ruby.State.{World}
use mpi_ruby.Op.Vector.{memcpy, memcpy-take}
use mpi_ruby.Comm.PointToPoint.{marshalled}
use mpi_ruby.Comm.Scatter.{marshal_each, copy_each, send_buffer}

-- The objects are dumped to these strings, and loaded from them whatever bytes follow.
abbrev pub Dumps : Env → List Value → List Bytes → Type 0
Dumps env [] [] = Unit
Dumps env [] (_ ∷ _) = ⊥
Dumps env (_ ∷ _) [] = ⊥
Dumps env (x ∷ xs) (s ∷ ss) =
    (env.marshal_dump x ≡ ok s)
    × (env.string_value_cstr s ≡ ok s)
    × ((more : Bytes) → env.marshal_load (s ++ more) ≡ ok x)
    × Dumps env xs ss

-- The fields hold the lengths of the strings, from index `i` on.
abbrev pub Lengths : (ℕ → ℤ) → ℕ → List Bytes → Type 0
Lengths lengths i [] = Unit
Lengths lengths i (s ∷ ss) = (lengths i ≡ pos (length s)) × Lengths lengths (suc i) ss

-- Each string is shorter than `size`.
abbrev pub Shorter : ℕ → List Bytes → Type 0
Shorter size [] = Unit
Shorter size (s ∷ ss) = (length s < size) × Shorter size ss

abbrev nul_ended : List Bytes → List Bytes
nul_ended [] = []
nul_ended (s ∷ ss) = (s ++ (0 ∷ [])) ∷ nul_ended ss

-- `longest`, from what it is before the loop.
abbrev pub longest_of : ℕ → List Bytes → ℕ
longest_of m [] = m
longest_of m (s ∷ ss) = longest_of (if ltb m (suc (length s)) then suc (length s) else m) ss

-- The strings one after the other, each filled up to `size` with what nothing wrote.
abbrev pub packed : ℕ → ℕ → List Bytes → Bytes
packed size junk [] = []
packed size junk (s ∷ ss) = (s ++ cells (size - length s) junk []) ++ packed size junk ss

marshal_each-Dumps :
    (env : Env) (lengths : ℕ → ℤ) (xs : List Value) (ss : List Bytes) (i m : ℕ) (w : World)
    → Dumps env xs ss
    → Lengths lengths i ss
    → marshal_each env lengths xs i (pos m) w ≡ (ok (nul_ended ss, pos (longest_of m ss)), w)
unfolding marshal_each marshalled
marshal_each-Dumps env lengths [] [] i m w d l = refl
marshal_each-Dumps env lengths [] (_ ∷ _) i m w d l = absurd d
marshal_each-Dumps env lengths (_ ∷ _) [] i m w d l = absurd d
marshal_each-Dumps env lengths (x ∷ xs) (s ∷ ss) i m w (dumped, str, loads, d) (len, l) =
    let m' = if ltb m (suc (length s)) then suc (length s) else m in
    let grow : (if lt_int (pos m) (succ (lengths i)) then succ (lengths i) else pos m) ≡ pos m' =
      ground (arith, len) in
    let rest : marshal_each env lengths xs (suc i)
          (if lt_int (pos m) (succ (lengths i)) then succ (lengths i) else pos m) w
        ≡ (ok (nul_ended ss, pos (longest_of m' ss)), w) =
      ap (λ n. marshal_each env lengths xs (suc i) n w) grow
      ∙ marshal_each-Dumps env lengths xs ss (suc i) m' w d l in
    ground (arith, dumped, str, rest)

longest_of-le : (m : ℕ) (ss : List Bytes) → m ≤ longest_of m ss
longest_of-le m [] = omega arith
longest_of-le m (s ∷ ss) =
    ground (arith, longest_of-le (if ltb m (suc (length s)) then suc (length s) else m) ss)

pub longest_of-Shorter : (m : ℕ) (ss : List Bytes) → Shorter (longest_of m ss) ss
longest_of-Shorter m [] = tt
longest_of-Shorter m (s ∷ ss) =
    let m' = if ltb m (suc (length s)) then suc (length s) else m in
    (ground (arith, longest_of-le m' ss), longest_of-Shorter m' ss)

drop-cells : (a b junk : ℕ) → a ≤ b → drop a (cells b junk []) ≡ cells (b - a) junk []
drop-cells zero b junk h = ap (λ n. cells n junk []) (omega arith)
drop-cells (suc a) zero junk h = absurd (omega arith)
drop-cells (suc a) (suc b) junk h =
    drop-cells a b junk (omega arith) ∙ ap (λ n. cells n junk []) (omega arith)

cells-add : (a b junk : ℕ) → cells (a + b) junk [] ≡ cells a junk [] ++ cells b junk []
cells-add zero b junk = ap (λ n. cells n junk []) (omega arith)
cells-add (suc a) b junk =
    let e : suc a + b ≡ suc (a + b) = omega arith in
    ap (λ n. cells n junk []) e ∙ ap (λ t. junk ∷ t) (cells-add a b junk)

-- One copy into the unwritten part of the buffer.
memcpy-packed :
    (size n junk : ℕ) (pre s : Bytes)
    → length s < size
    → memcpy (pre ++ cells (size + n) junk []) (length pre) (s ++ (0 ∷ [])) (pos (length s))
      ≡ ok ((pre ++ (s ++ cells (size - length s) junk [])) ++ cells n junk [])
memcpy-packed size n junk pre s lt =
    let tail = cells (size + n) junk [] in
    let long : length s ≤ length (s ++ (0 ∷ [])) = omega (arith, length-append s (0 ∷ [])) in
    let room : length s ≤ length tail = omega (arith, lt, length-cells (size + n) junk []) in
    let left : drop (length s) tail ≡ cells (size - length s) junk [] ++ cells n junk [] =
      drop-cells (length s) (size + n) junk (omega (arith, lt))
      ∙ ap (λ k. cells k junk []) (omega (arith, lt))
      ∙ cells-add (size - length s) n junk in
    memcpy-take (length s) pre (s ++ (0 ∷ [])) tail long room
    ∙ ap (λ t. ok (pre ++ t))
        (ap (λ t. t ++ drop (length s) tail) (take-length s (0 ∷ []))
          ∙ ap (λ t. s ++ t) left
          ∙ sym (append_assoc s (cells (size - length s) junk []) (cells n junk [])))
    ∙ ap ok (sym (append_assoc pre (s ++ cells (size - length s) junk []) (cells n junk [])))

pub length-filled :
    (size junk : ℕ) (s : Bytes)
    → length s < size
    → length (s ++ cells (size - length s) junk []) ≡ size
length-filled size junk s lt = omega (
  arith,
  lt,
  length-append s (cells (size - length s) junk []),
  length-cells (size - length s) junk [],
)

copy_each-packed :
    (lengths : ℕ → ℤ) (size junk : ℕ) (ss : List Bytes) (i : ℕ) (pre : Bytes) (w : World)
    → Lengths lengths i ss
    → Shorter size ss
    → length pre ≡ i * size
    → copy_each lengths size (nul_ended ss) i (pre ++ cells (length ss * size) junk []) w
      ≡ (ok (pre ++ packed size junk ss), w)
unfolding copy_each
copy_each-packed lengths size junk [] i pre w l sh at =
    let none_left : 0 * size ≡ 0 = omega arith in
    ap (λ n. (ok (pre ++ cells n junk []), w)) none_left
copy_each-packed lengths size junk (s ∷ ss) i pre w (len, l) (lt, sh) at =
    let pre' = pre ++ (s ++ cells (size - length s) junk []) in
    let more : length (s ∷ ss) * size ≡ size + length ss * size = omega arith in
    let at' : length pre' ≡ suc i * size = omega (
      arith,
      at,
      length-append pre (s ++ cells (size - length s) junk []),
      length-filled size junk s lt,
    ) in
    let first : memcpy (pre ++ cells (length (s ∷ ss) * size) junk []) (i * size) (s ++ (0 ∷ []))
          (lengths i)
        ≡ ok (pre' ++ cells (length ss * size) junk []) =
      ap (λ n. memcpy (pre ++ cells n junk []) (i * size) (s ++ (0 ∷ [])) (lengths i)) more
      ∙ ap
          (λ k.
            memcpy (pre ++ cells (size + length ss * size) junk []) k (s ++ (0 ∷ [])) (lengths i))
          (sym at)
      ∙ ap
          (λ c.
            memcpy (pre ++ cells (size + length ss * size) junk []) (length pre) (s ++ (0 ∷ [])) c)
          len
      ∙ memcpy-packed size (length ss * size) junk pre s lt in
    let rest : copy_each lengths size (nul_ended ss) (suc i)
          (pre' ++ cells (length ss * size) junk []) w
        ≡ (ok (pre' ++ packed size junk ss), w) =
      copy_each-packed lengths size junk ss (suc i) pre' w l sh at' in
    ground (
      arith,
      first,
      rest,
      append_assoc pre (s ++ cells (size - length s) junk []) (packed size junk ss),
    )

pub next_place :
    (size junk i : ℕ) (pre s : Bytes)
    → length s < size
    → length pre ≡ i * size
    → length (pre ++ (s ++ cells (size - length s) junk [])) ≡ suc i * size
next_place size junk i pre s lt at = omega (
  arith,
  at,
  length-append pre (s ++ cells (size - length s) junk []),
  length-filled size junk s lt,
)

pub length-packed :
    (size junk : ℕ) (ss : List Bytes)
    → Shorter size ss
    → length (packed size junk ss) ≡ length ss * size
length-packed size junk [] sh = omega arith
length-packed size junk (s ∷ ss) (lt, sh) =
    let more : suc (length ss) * size ≡ size + length ss * size = omega arith in
    omega (
      arith,
      more,
      length-append (s ++ cells (size - length s) junk []) (packed size junk ss),
      length-filled size junk s lt,
      length-packed size junk ss sh,
    )

pub Dumps-length :
    (env : Env) (xs : List Value) (ss : List Bytes) → Dumps env xs ss → length ss ≡ length xs
Dumps-length env [] [] d = refl
Dumps-length env [] (_ ∷ _) d = absurd d
Dumps-length env (_ ∷ _) [] d = absurd d
Dumps-length env (x ∷ xs) (s ∷ ss) (dumped, str, loads, d) = ap suc (Dumps-length env xs ss d)

pub send_buffer-packed :
    (env : Env) (lengths : ℕ → ℤ) (xs : List Value) (ss : List Bytes) (w : World)
    → Dumps env xs ss
    → Lengths lengths 0 ss
    → send_buffer env lengths xs w
      ≡ (ok (packed (longest_of 0 ss) env.junk_char ss, pos (longest_of 0 ss)), w)
unfolding send_buffer
send_buffer-packed env lengths xs ss w d l =
    let size = longest_of 0 ss in
    let zero_place : 0 ≡ 0 * size = omega arith in
    ground (
      arith,
      marshal_each-Dumps env lengths xs ss 0 0 w d l,
      copy_each-packed lengths size env.junk_char ss 0 [] w l (longest_of-Shorter 0 ss) zero_place,
      Dumps-length env xs ss d,
    )
