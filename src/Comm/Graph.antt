-- ===== src/Comm/Graph.antt =====
-- mpi_comm.c: graph topologies take as many edges as there are nodes.
use mpi_ruby.Base.{
  ℕ, zero, suc, ◌≤◌, ◌<◌, ℤ, List, [], ◌∷◌, ◌≡◌, refl, ap, arith, length, take, length-map, ◌∙◌,
}
use mpi_ruby.Ruby.{Value, RubyError, ok, raised}
use mpi_ruby.Mpi.{Call, Code, Env}
use mpi_ruby.Exception.Laws.{mpi_exception_success}
use mpi_ruby.State.{World}
use mpi_ruby.Comm.Struct.{CommStruct, fresh_struct, comm_new}
use mpi_ruby.Comm.Args.{int_array, fixnums, entries}
use mpi_ruby.Comm.Construct.{new_comm}
use mpi_ruby.Comm.Topology.{comm_graph_create}
use mpi_ruby.Comm.Decode.{AllFit, Fix2IntOf, int_array-fixnums}

entries-fixnums :
    (n : ℕ) (ns : List ℤ) → n ≤ length ns → entries n (fixnums ns) ≡ fixnums (take n ns)
entries-fixnums zero ns h = refl
entries-fixnums (suc n) [] h = absurd (omega arith)
entries-fixnums (suc n) (k ∷ ns) h =
    ap (λ t. Value.fixnum k ∷ t) (entries-fixnums n ns (omega arith))

take-all : (ns : List ℤ) → take (length ns) ns ≡ ns
take-all [] = refl
take-all (n ∷ ns) = ap (λ t. n ∷ t) (take-all ns)

AllFit-take : (env : Env) (n : ℕ) (ns : List ℤ) → AllFit env ns → AllFit env (take n ns)
AllFit-take env zero ns fit = tt
AllFit-take env (suc n) [] fit = tt
AllFit-take env (suc n) (k ∷ ns) fit = (fit.0, AllFit-take env n ns fit.1)

int_array-entries :
    (env : Env) (n : ℕ) (ns : List ℤ) (w : World)
    → n ≤ length ns
    → AllFit env ns
    → int_array env (entries n (fixnums ns)) w ≡ (ok (take n ns), w)
int_array-entries env n ns w h law =
    rw (entries-fixnums n ns h) (int_array-fixnums env (take n ns) w (AllFit-take env n ns law))

int_array-all :
    (env : Env) (ns : List ℤ) (w : World)
    → AllFit env ns
    → int_array env (entries (length (fixnums ns)) (fixnums ns)) w ≡ (ok ns, w)
int_array-all env ns w law =
    int_array-entries env (length (fixnums ns)) ns w (omega (arith, same)) law
    ∙ ap (λ t. (ok t, w)) (ap (λ k. take k ns) same ∙ take-all ns)
  where
    same : length (fixnums ns) ≡ length ns
    same = length-map Value.fixnum ns

-- A conversion that fails stops the loop, whatever stands behind it.
int_array-short :
    (env : Env) (n : ℕ) (ns : List ℤ) (e : RubyError) (w : World)
    → length ns < n
    → AllFit env ns
    → env.fix2int Value.qnil ≡ raised e
    → int_array env (entries n (fixnums ns)) w ≡ (raised e, w)
unfolding int_array
int_array-short env zero ns e w h law nil = absurd (omega arith)
int_array-short env (suc n) [] e w h law nil = ground (arith, nil)
int_array-short env (suc n) (k ∷ ns) e w h law nil =
    ground (arith, law.0, int_array-short env n ns e w (omega arith) law.1 nil)

-- The call that `graph_create` makes when there are edges enough: the edges behind the first
-- `length index` are left out.
abbrev pub graph_call : CommStruct → List ℤ → List ℤ → ℤ → Call
graph_call mc index edges reorder =
    Call.graph_create mc.comm (length (fixnums index)) index (take (length (fixnums index)) edges)
      reorder

-- `graph_create` of Fixnums that fit takes the number of edges from the number of nodes. With at least as many edges as
-- nodes, MPI_Graph_create is given only the first `length index` edges: a node's later edges are
-- lost without an error.
pub graph_create_truncates :
    (env : Env) (mc : CommStruct) (index edges : List ℤ) (reorder : ℤ) (w : World)
    → length index ≤ length edges
    → Fix2IntOf env reorder
    → AllFit env index
    → AllFit env edges
    → (env.reply w.log (graph_call mc index edges reorder)).rv ≡ Code.success
    → comm_graph_create env mc (fixnums index) (fixnums edges) (Value.fixnum reorder) w ≡ (
      ok (comm_new (fresh_struct (env.reply w.log (graph_call mc index edges reorder)).handle)),
      record w { log = graph_call mc index edges reorder ∷ w.log },
    )
unfolding comm_graph_create new_comm
graph_create_truncates env mc index edges reorder w enough fit_reorder fit_index fit_edges good =
    let same = length-map Value.fixnum index in
    ground (
      arith,
      fit_reorder,
      int_array-all env index w fit_index,
      int_array-entries env (length (fixnums index)) edges w (omega arith) fit_edges,
      mpi_exception_success,
      good,
    )

-- With fewer edges than nodes, as in any graph of isolated nodes, `graph_create` of Fixnums that fit
-- raises what FIX2INT raises for nil, and does not call MPI.
pub graph_create_refuses :
    (env : Env) (mc : CommStruct) (index edges : List ℤ) (reorder : ℤ) (e : RubyError) (w : World)
    → length edges < length index
    → Fix2IntOf env reorder
    → AllFit env index
    → AllFit env edges
    → env.fix2int Value.qnil ≡ raised e
    → comm_graph_create env mc (fixnums index) (fixnums edges) (Value.fixnum reorder) w
      ≡ (raised e, w)
unfolding comm_graph_create
graph_create_refuses env mc index edges reorder e w few fit_reorder fit_index fit_edges nil =
    let same = length-map Value.fixnum index in
    ground (
      arith,
      fit_reorder,
      int_array-all env index w fit_index,
      int_array-short env (length (fixnums index)) edges e w (omega arith) fit_edges nil,
    )
