-- ===== src/Comm/Ring/Places.antt =====
-- mpi_comm.c: the Array of `comm_allgather`.
use mpi_ruby.Base.{ℕ, zero, suc, ◌≡◌, refl, [], ◌∷◌, some, get_elem?}
use mpi_ruby.Ruby.{Bytes}
use mpi_ruby.Comm.Collective.{Strings, store_string}

pub get_elem?-store_string :
    (ary : Strings) (i : ℕ) (v : Bytes) → get_elem? (store_string ary i v) i ≡ some (some v)
unfolding store_string
get_elem?-store_string [] zero v = refl
get_elem?-store_string [] (suc i) v = get_elem?-store_string [] i v
get_elem?-store_string (x ∷ xs) zero v = refl
get_elem?-store_string (x ∷ xs) (suc i) v = get_elem?-store_string xs i v
