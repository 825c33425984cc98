-- ===== src/Startup/Texts.antt =====
-- mpi_comm.c and mpi.c: `to_s` of the constants. A text is its character codes.
use mpi_ruby.Base.{pos, [], ◌∷◌, ◌++◌, ◌≡◌, refl, length}
use mpi_ruby.Ruby.{Bytes, Outcome, ok}
use mpi_ruby.Mpi.{Env}
use mpi_ruby.Op.Vector.{chunk}
use mpi_ruby.Keyval.Attributes.{str_new}

-- A C string literal: its characters and a NUL, all of which `sizeof` counts.
abbrev pub literal : Bytes → Bytes
literal text = text ++ (0 ∷ [])

-- `rb_str_new(text, sizeof(text))`
abbrev pub new_text : Env → Bytes → Outcome Bytes
new_text env text = str_new env (literal text) (pos (length (literal text)))

-- MPI::Comm.ANY_TAG
abbrev pub any_tag_text : Bytes
any_tag_text =
    77 ∷ 80 ∷ 73 ∷ 58 ∷ 58 ∷ 67 ∷ 111 ∷ 109 ∷ 109 ∷ 46 ∷ 65 ∷ 78 ∷ 89 ∷ 95 ∷ 84 ∷ 65 ∷ 71 ∷ []

unfoldable pub any_tag_to_s : Env → Outcome Bytes
any_tag_to_s env = new_text env any_tag_text

-- MPI::Comm.ANY_SOURCE
abbrev pub any_source_text : Bytes
any_source_text =
    77 ∷ 80 ∷ 73 ∷ 58 ∷ 58 ∷ 67 ∷ 111 ∷ 109 ∷ 109 ∷ 46 ∷ 65 ∷ 78 ∷ 89 ∷ 95 ∷ 83 ∷ 79 ∷ 85 ∷ 82 ∷ 67
    ∷ 69 ∷ []

unfoldable pub any_source_to_s : Env → Outcome Bytes
any_source_to_s env = new_text env any_source_text

-- MPI::Comm.SELF
abbrev pub self_text : Bytes
self_text = 77 ∷ 80 ∷ 73 ∷ 58 ∷ 58 ∷ 67 ∷ 111 ∷ 109 ∷ 109 ∷ 46 ∷ 83 ∷ 69 ∷ 76 ∷ 70 ∷ []

unfoldable pub self_to_s : Env → Outcome Bytes
self_to_s env = new_text env self_text

-- MPI::Comm.WORLD
abbrev pub world_text : Bytes
world_text = 77 ∷ 80 ∷ 73 ∷ 58 ∷ 58 ∷ 67 ∷ 111 ∷ 109 ∷ 109 ∷ 46 ∷ 87 ∷ 79 ∷ 82 ∷ 76 ∷ 68 ∷ []

unfoldable pub world_to_s : Env → Outcome Bytes
world_to_s env = new_text env world_text

-- MPI::Comm.GRAPH
abbrev pub graph_text : Bytes
graph_text = 77 ∷ 80 ∷ 73 ∷ 58 ∷ 58 ∷ 67 ∷ 111 ∷ 109 ∷ 109 ∷ 46 ∷ 71 ∷ 82 ∷ 65 ∷ 80 ∷ 72 ∷ []

unfoldable pub graph_to_s : Env → Outcome Bytes
graph_to_s env = new_text env graph_text

-- MPI::Comm.CART
abbrev pub cart_text : Bytes
cart_text = 77 ∷ 80 ∷ 73 ∷ 58 ∷ 58 ∷ 67 ∷ 111 ∷ 109 ∷ 109 ∷ 46 ∷ 67 ∷ 65 ∷ 82 ∷ 84 ∷ []

unfoldable pub cart_to_s : Env → Outcome Bytes
cart_to_s env = new_text env cart_text

-- MPI::UNDEFINED
abbrev pub undefined_text : Bytes
undefined_text = 77 ∷ 80 ∷ 73 ∷ 58 ∷ 58 ∷ 85 ∷ 78 ∷ 68 ∷ 69 ∷ 70 ∷ 73 ∷ 78 ∷ 69 ∷ 68 ∷ []

unfoldable pub undefined_to_s : Env → Outcome Bytes
undefined_to_s env = new_text env undefined_text

-- The `to_s` of each constant is its text with a NUL character behind it.
to_s_ends_in_nul :
    (env : Env)
    → (any_tag_to_s env ≡ ok (any_tag_text ++ (0 ∷ [])))
      × (any_source_to_s env ≡ ok (any_source_text ++ (0 ∷ [])))
      × (self_to_s env ≡ ok (self_text ++ (0 ∷ [])))
      × (world_to_s env ≡ ok (world_text ++ (0 ∷ [])))
      × (graph_to_s env ≡ ok (graph_text ++ (0 ∷ [])))
      × (cart_to_s env ≡ ok (cart_text ++ (0 ∷ [])))
      × (undefined_to_s env ≡ ok (undefined_text ++ (0 ∷ [])))
unfolding any_tag_to_s any_source_to_s self_to_s world_to_s graph_to_s cart_to_s undefined_to_s
    chunk
to_s_ends_in_nul env = (refl, refl, refl, refl, refl, refl, refl)
