-- ===== src/Comm/Attached.antt =====
-- mpi_comm.c: `buffer_for` attaches a buffer that is large enough.
use mpi_ruby.Base.{ℕ, ◌≤◌, ℤ, pos, negsuc}

-- The buffer's size is at least `n`.
abbrev pub Covers : ℤ → ℕ → Type 0
Covers (pos k) n = n ≤ k
Covers (negsuc _) n = ⊥
