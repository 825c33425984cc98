-- ===== src/Comm/Unpacking.antt =====
-- mpi_comm.c: objects taken out of a buffer that `comm_scatter` or `comm_alltoall` packed.
use mpi_ruby.Base.{
  ℕ, suc, ◌*◌, ◌-◌, ◌<◌, ◌≡◌, refl, ap, sym, ◌∙◌, ℤ, pos, List, [], ◌∷◌, ◌++◌, length, cells,
  append_assoc, arith,
}
use mpi_ruby.Ruby.{Value, Bytes, ok}
use mpi_ruby.Mpi.{Env}
use mpi_ruby.State.{World}
use mpi_ruby.Op.Vector.{chunk, chunk-append}
use mpi_ruby.Comm.Reduction.{load_results}
use mpi_ruby.Comm.Scatter.{send_buffer}
use mpi_ruby.Comm.Packing.{
  Dumps, Lengths, Shorter, longest_of, packed, length-filled, next_place, length-packed,
  Dumps-length, send_buffer-packed, longest_of-Shorter,
}

chunk-packed :
    (size junk i : ℕ) (pre s more : Bytes)
    → length s < size
    → length pre ≡ i * size
    → chunk (i * size) size (pre ++ ((s ++ cells (size - length s) junk []) ++ more))
      ≡ ok (s ++ cells (size - length s) junk [])
chunk-packed size junk i pre s more lt at =
    let filled = s ++ cells (size - length s) junk [] in
    ap (λ k. chunk k size (pre ++ (filled ++ more))) (sym at)
    ∙ ap (λ k. chunk (length pre) k (pre ++ (filled ++ more))) (sym (length-filled size junk s lt))
    ∙ chunk-append pre filled more

load_results-cons :
    (env : Env) (size n i : ℕ) (recv f : Bytes) (x : Value) (xs : List Value) (w : World)
    → chunk (i * size) size recv ≡ ok f
    → env.marshal_load f ≡ ok x
    → load_results env size recv n (suc i) w ≡ (ok xs, w)
    → load_results env size recv (suc n) i w ≡ (ok (x ∷ xs), w)
unfolding load_results
load_results-cons env size n i recv f x xs w here loaded rest = ground (arith, here, loaded, rest)

load_results-packed :
    (env : Env) (size junk : ℕ) (xs : List Value) (ss : List Bytes) (i : ℕ) (pre : Bytes)
    (w : World)
    → Dumps env xs ss
    → Shorter size ss
    → length pre ≡ i * size
    → load_results env size (pre ++ packed size junk ss) (length xs) i w ≡ (ok xs, w)
unfolding load_results
load_results-packed env size junk [] [] i pre w d sh at = refl
load_results-packed env size junk [] (_ ∷ _) i pre w d sh at = absurd d
load_results-packed env size junk (_ ∷ _) [] i pre w d sh at = absurd d
load_results-packed env size junk (x ∷ xs) (s ∷ ss) i pre w (dumped, str, loads, d) (lt, sh) at =
    load_results-cons env size (length xs) i (pre ++ packed size junk (s ∷ ss))
      (s ++ cells (size - length s) junk []) x xs w
      (chunk-packed size junk i pre s (packed size junk ss) lt at)
      (loads (cells (size - length s) junk []))
      (ap (λ t. load_results env size t (length xs) (suc i) w)
          (sym (append_assoc pre (s ++ cells (size - length s) junk []) (packed size junk ss)))
        ∙ load_results-packed env size junk xs ss (suc i)
            (pre ++ (s ++ cells (size - length s) junk [])) w d sh
            (next_place size junk i pre s lt at))

-- Where the length fields hold the lengths of the dumps, and an object is loaded from its dump
-- whatever bytes follow, the send buffer of `scatter` and `alltoall` is made without a copy out of
-- bounds, has `longest` bytes for each object, and the loop that `alltoall` takes its results out of
-- a buffer with gets the objects back from it, in order.
pub load_results-send_buffer :
    (env : Env) (lengths : ℕ → ℤ) (xs : List Value) (ss : List Bytes) (w : World)
    → Dumps env xs ss
    → Lengths lengths 0 ss
    → (send : Bytes) × (longest : ℕ) × (send_buffer env lengths xs w ≡ (ok (send, pos longest), w))
      × (length send ≡ length xs * longest)
      × (load_results env longest send (length xs) 0 w ≡ (ok xs, w))
load_results-send_buffer env lengths xs ss w d l =
    let size = longest_of 0 ss in
    let short = longest_of-Shorter 0 ss in
    let zero_place : 0 ≡ 0 * size = omega arith in
    (
      packed size env.junk_char ss,
      size,
      send_buffer-packed env lengths xs ss w d l,
      length-packed size env.junk_char ss short ∙ ap (λ n. n * size) (Dumps-length env xs ss d),
      load_results-packed env size env.junk_char xs ss 0 [] w d short zero_place,
    )
