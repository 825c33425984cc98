-- ===== src/Startup/Tables.antt =====
-- The registrations of the `Init_` functions, in the order of the code.
use mpi_ruby.Base.{List, [], ◌∷◌}
use mpi_ruby.Startup.Methods.{Owner, How, Function, Method, registration}

-- `Init_MPI`
abbrev pub mpi_methods : List Method
mpi_methods =
    registration Owner.mpi How.module_function "wtime" Function.mpi_wtime 0
    ∷ registration Owner.mpi How.module_function "wtick" Function.mpi_wtick 0
    ∷ registration Owner.mpi How.module_function "initialized?" Function.mpi_initialized_p 0
    ∷ registration Owner.mpi How.module_function "processor_name" Function.mpi_processor_name 0
    ∷ registration Owner.mpi How.module_function "dims_create" Function.mpi_dims_create 2
    ∷ registration (Owner.constant "UNDEFINED") How.singleton_method "to_s" Function.undefined_to_s
        0
    ∷ []

-- `init_predef_comms`
abbrev pub predef_comm_methods : List Method
predef_comm_methods =
    registration (Owner.constant "SELF") How.singleton_method "to_s" Function.self_to_s 0
    ∷ registration (Owner.constant "WORLD") How.singleton_method "to_s" Function.world_to_s 0
    ∷ []

-- The methods of MPI::Comm up to the collective operations in `Init_Comm`.
abbrev pub comm_methods : List Method
comm_methods =
    registration Owner.comm How.method "size" Function.comm_size 0
    ∷ registration Owner.comm How.method "rank" Function.comm_rank 0
    ∷ registration Owner.comm How.method "group" Function.comm_group 0
    ∷ registration Owner.comm How.method "abort" Function.comm_abort 1
    ∷ registration Owner.comm How.method "dup" Function.comm_dup 0
    ∷ registration Owner.comm How.method "split" Function.comm_split 2
    ∷ registration Owner.comm How.singleton_method "create" Function.comm_create 1
    ∷ registration Owner.comm How.method "cart_create" Function.comm_cart_create 3
    ∷ registration Owner.comm How.method "graph_create" Function.comm_graph_create 3
    ∷ registration Owner.comm How.method "topo_test" Function.comm_topo_test 0
    ∷ registration Owner.comm How.method "graphdims" Function.comm_graphdims_get 0
    ∷ registration Owner.comm How.method "graphdims_get" Function.comm_graphdims_get 0
    ∷ registration Owner.comm How.method "graph" Function.comm_graph_get 0
    ∷ registration Owner.comm How.method "graph_get" Function.comm_graph_get 0
    ∷ registration Owner.comm How.method "cartdim" Function.comm_cartdim_get 0
    ∷ registration Owner.comm How.method "cartdim_get" Function.comm_cartdim_get 0
    ∷ registration Owner.comm How.method "cart" Function.comm_cart_get 0
    ∷ registration Owner.comm How.method "cart_get" Function.comm_cart_get 0
    ∷ registration Owner.comm How.method "cart_rank" Function.comm_cart_rank 1
    ∷ registration Owner.comm How.method "cart_coords" Function.comm_cart_coords 1
    ∷ registration Owner.comm How.method "graph_neighbors" Function.comm_graph_neighbors 1
    ∷ registration Owner.comm How.method "graph_neighbors_count" Function.comm_graph_neighbors_count
        1
    ∷ registration Owner.comm How.method "cart_shift" Function.comm_cart_shift 2
    ∷ registration Owner.comm How.method "cart_sub" Function.comm_cart_sub 1
    ∷ registration Owner.comm How.method "cart_map" Function.comm_cart_map 2
    ∷ registration Owner.comm How.method "graph_map" Function.comm_graph_map 2
    ∷ registration Owner.comm How.method "send" Function.comm_send 3
    ∷ registration Owner.comm How.method "recv" Function.comm_recv 2
    ∷ registration Owner.comm How.method "bsend" Function.comm_bsend 3
    ∷ registration Owner.comm How.method "ssend" Function.comm_ssend 3
    ∷ registration Owner.comm How.method "rsend" Function.comm_rsend 3
    ∷ registration Owner.comm How.method "sendrecv" Function.comm_sendrecv 5
    ∷ registration Owner.comm How.method "isend" Function.comm_isend 3
    ∷ registration Owner.comm How.method "ibsend" Function.comm_ibsend 3
    ∷ registration Owner.comm How.method "issend" Function.comm_issend 3
    ∷ registration Owner.comm How.method "irsend" Function.comm_irsend 3
    ∷ registration Owner.comm How.method "irecv" Function.comm_irecv 2
    ∷ registration Owner.comm How.method "send_init" Function.comm_send_init 3
    ∷ registration Owner.comm How.method "bsend_init" Function.comm_bsend_init 3
    ∷ registration Owner.comm How.method "ssend_init" Function.comm_ssend_init 3
    ∷ registration Owner.comm How.method "rsend_init" Function.comm_rsend_init 3
    ∷ registration Owner.comm How.method "recv_init" Function.comm_recv_init 2
    ∷ registration Owner.comm How.method "buffer_for" Function.comm_buffer_for 1
    ∷ registration Owner.comm How.method "unbuffer" Function.comm_unbuffer 0
    ∷ []

-- The collective operations.
abbrev pub collective_methods : List Method
collective_methods =
    registration Owner.intra_comm How.method "barrier" Function.comm_barrier 2
    ∷ registration Owner.intra_comm How.method "bcast" Function.comm_bcast 2
    ∷ registration Owner.intra_comm How.method "gather" Function.comm_gather 2
    ∷ registration Owner.intra_comm How.method "allgather" Function.comm_allgather 1
    ∷ registration Owner.intra_comm How.method "scatter" Function.comm_scatter 2
    ∷ registration Owner.intra_comm How.method "alltoall" Function.comm_alltoall 1
    ∷ registration Owner.intra_comm How.method "reduce" Function.comm_reduce 3
    ∷ registration Owner.intra_comm How.method "allreduce" Function.comm_allreduce 2
    ∷ registration Owner.intra_comm How.method "scan" Function.comm_scan 2
    ∷ registration Owner.intra_comm How.method "reduce_scatter" Function.comm_reduce_scatter 3
    ∷ []

-- The rest of `Init_Comm`.
abbrev pub other_comm_methods : List Method
other_comm_methods =
    registration Owner.comm How.method "probe" Function.comm_probe 2
    ∷ registration Owner.comm How.method "iprobe" Function.comm_iprobe 2
    ∷ registration Owner.comm How.method "==" Function.comm_equal 1
    ∷ registration Owner.comm How.method "congruent?" Function.comm_congruent_p 1
    ∷ registration Owner.comm How.method "similar?" Function.comm_similar_p 1
    ∷ registration Owner.comm How.method "inter?" Function.comm_inter_p 0
    ∷ registration Owner.comm How.method "intercomm_create" Function.comm_intercomm_create 4
    ∷ registration Owner.comm How.method "intercomm_merge" Function.comm_intercomm_merge 4
    ∷ registration Owner.comm How.method "remote_size" Function.comm_remote_size 0
    ∷ registration Owner.comm How.method "remote_group" Function.comm_remote_group 0
    ∷ registration Owner.comm How.method "attr_put" Function.comm_attr_put 2
    ∷ registration Owner.comm How.method "attr_get" Function.comm_attr_get 1
    ∷ registration Owner.comm How.method "attr_delete" Function.comm_attr_delete 1
    ∷ registration (Owner.constant "ANY_TAG") How.singleton_method "to_s" Function.any_tag_to_s 0
    ∷ registration (Owner.constant "ANY_SOURCE") How.singleton_method "to_s"
        Function.any_source_to_s 0
    ∷ registration (Owner.constant "GRAPH") How.singleton_method "to_s" Function.graph_to_s 0
    ∷ registration (Owner.constant "CART") How.singleton_method "to_s" Function.cart_to_s 0
    ∷ []

-- `Init_Group`
abbrev pub group_methods : List Method
group_methods =
    registration Owner.group How.method "size" Function.group_size 0
    ∷ registration Owner.group How.method "rank" Function.group_rank 0
    ∷ registration Owner.group How.method "translate_ranks" Function.group_translate_ranks 2
    ∷ registration Owner.group How.method "==" Function.group_equal 1
    ∷ registration Owner.group How.method "similar?" Function.group_similar_p 1
    ∷ registration Owner.group How.method "|" Function.group_union 1
    ∷ registration Owner.group How.method "union" Function.group_union 1
    ∷ registration Owner.group How.method "-" Function.group_difference 1
    ∷ registration Owner.group How.method "difference" Function.group_difference 1
    ∷ registration Owner.group How.method "&" Function.group_intersection 1
    ∷ registration Owner.group How.method "intersection" Function.group_intersection 1
    ∷ registration Owner.group How.method "incl" Function.group_incl 1
    ∷ registration Owner.group How.method "range_incl" Function.group_range_incl 1
    ∷ registration Owner.group How.method "excl" Function.group_excl 1
    ∷ registration Owner.group How.method "range_excl" Function.group_range_excl 1
    ∷ []

-- `Init_Status`
abbrev pub status_methods : List Method
status_methods =
    registration Owner.status How.method "source" Function.status_source 0
    ∷ registration Owner.status How.method "tag" Function.status_tag 0
    ∷ registration Owner.status How.method "cancelled?" Function.status_cancelled_p 0
    ∷ []

-- `Init_Request`
abbrev pub request_methods : List Method
request_methods =
    registration Owner.request How.method "wait" Function.request_wait 0
    ∷ registration Owner.request How.singleton_method "waitany" Function.request_waitany 1
    ∷ registration Owner.request How.singleton_method "waitall" Function.request_waitall 1
    ∷ registration Owner.request How.singleton_method "waitsome" Function.request_waitsome 1
    ∷ registration Owner.request How.method "test" Function.request_test 0
    ∷ registration Owner.request How.singleton_method "testany" Function.request_testany 1
    ∷ registration Owner.request How.singleton_method "testall" Function.request_testall 1
    ∷ registration Owner.request How.singleton_method "testsome" Function.request_testsome 1
    ∷ registration Owner.request How.method "cancel" Function.request_cancel 0
    ∷ registration Owner.request How.method "start" Function.request_start 0
    ∷ registration Owner.request How.singleton_method "startall" Function.request_startall 1
    ∷ registration Owner.request How.method "null?" Function.request_null_p 0
    ∷ registration Owner.request How.method "object" Function.request_object 0
    ∷ []

-- `Init_Op`
abbrev pub op_methods : List Method
op_methods = registration Owner.op How.singleton_method "create" Function.op_create 2 ∷ []

-- `Init_Keyval`
abbrev pub keyval_methods : List Method
keyval_methods =
    registration Owner.keyval How.singleton_method "create" Function.keyval_create 1 ∷ []
