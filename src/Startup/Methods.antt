-- ===== src/Startup/Methods.antt =====
-- What the `Init_` functions of mpi.c, mpi_comm.c, mpi_group.c, mpi_status.c, mpi_request.c,
-- mpi_op.c and mpi_keyval.c register with Ruby: classes, and methods with the C function and the
-- number of arguments that Ruby passes to it.
use mpi_ruby.Base.{ℕ, String}

-- The module MPI, its classes, and objects that are constants.
pub data Owner : Type 0 where
  mpi comm intra_comm group status request op keyval exception : Owner
  constant : String → Owner

-- `rb_define_method`, `rb_define_singleton_method`, `rb_define_module_function`
pub data How : Type 0 where
  method singleton_method module_function : How

-- The C functions that are registered, by the number of `VALUE`s that their prototypes have after
-- `self`.
pub data Function : ℕ → Type 0 where
  mpi_wtime mpi_wtick mpi_initialized_p mpi_processor_name undefined_to_s self_to_s : Function 0
  world_to_s comm_size comm_rank comm_group comm_dup comm_topo_test : Function 0
  comm_graphdims_get comm_graph_get comm_cartdim_get comm_cart_get comm_unbuffer : Function 0
  comm_barrier comm_inter_p comm_remote_size comm_remote_group any_tag_to_s : Function 0
  any_source_to_s graph_to_s cart_to_s group_size group_rank status_source : Function 0
  status_tag status_cancelled_p request_wait request_test request_cancel : Function 0
  request_start request_null_p request_object : Function 0
  comm_abort comm_create comm_cart_rank comm_cart_coords comm_graph_neighbors : Function 1
  comm_graph_neighbors_count comm_cart_sub comm_buffer_for comm_allgather : Function 1
  comm_alltoall comm_equal comm_congruent_p comm_similar_p comm_intercomm_merge : Function 1
  comm_attr_get comm_attr_delete group_equal group_similar_p group_union : Function 1
  group_difference group_intersection group_incl group_range_incl group_excl : Function 1
  group_range_excl request_waitany request_waitall request_waitsome request_testany : Function 1
  request_testall request_testsome request_startall keyval_create : Function 1
  mpi_dims_create comm_split comm_cart_shift comm_cart_map comm_graph_map comm_recv : Function 2
  comm_irecv comm_recv_init comm_bcast comm_gather comm_scatter comm_allreduce : Function 2
  comm_scan comm_probe comm_iprobe comm_attr_put group_translate_ranks op_create : Function 2
  comm_cart_create comm_graph_create comm_send comm_bsend comm_ssend comm_rsend : Function 3
  comm_isend comm_ibsend comm_issend comm_irsend comm_send_init comm_bsend_init : Function 3
  comm_ssend_init comm_rsend_init comm_reduce comm_reduce_scatter : Function 3
  comm_intercomm_create : Function 4
  comm_sendrecv : Function 5

-- One registration; `argc` is the number given to Ruby.
pub record Method : Type 0 where
  pub owner : Owner
  pub how : How
  pub name : String
  pub params : ℕ
  pub function : Function params
  pub argc : ℕ

abbrev pub registration : Owner → How → String → {n : ℕ} → Function n → ℕ → Method
registration owner how name {n} function argc = record {
  owner = owner;
  how = how;
  name = name;
  params = n;
  function = function;
  argc = argc;
}
