-- ===== src/Lib.antt =====
-- MPI Ruby: the C extension that makes MPI's communicators, requests, groups and operations Ruby
-- objects. A Ruby object is sent as the string that Marshal.dump makes of it, in two messages: its
-- length as an int, and its bytes. A receive therefore has two stages. Requests that await their
-- length are on a list that a polling thread looks through. Operations in Ruby take a slot of a
-- static table, whose index links the object to the C callback that MPI calls.
--
-- Files, with what they model (paths from the repository's root):
--   Base: the shared names, lemmas on lists and the integers.
--   Ruby, Mpi: the values of Ruby and the calls of MPI that the C files name. Env is all that is
--     outside the repository: MPI's replies as a function of the calls before, its constants,
--     Marshal, FIX2INT, the allocator. Each theorem holds for every Env that meets its hypotheses.
--   State: World (the log of MPI calls, the table of operations, the list of requests, the heaps of
--     request and attribute structs) and the monad of the C functions. A function returns, raises a
--     Ruby exception (which keeps the state written so far), or faults: undefined behaviour of C.
--   Exception: src/mpi_exception.c, the codes of MPI as exceptions.
--   Op: src/mpi_op.c with src/ops.rb. first_free is the loop of op_register, finish_create the
--     rest of op_create after it. Callbacks has the functions that MPI calls: op_fn is op_0, op_1
--     and so on, predef_fn and select_fn the bodies that the predefined ones share; Vector their
--     loop and copies. InitPredef the constants of MPI::Op. Events has sequences of creations and
--     finalisers.
--   Request: src/mpi_request.c. Memory has the struct, request_new and request_free; Watch the list
--     of pending receives; Lifecycle wait, test and cancel; Start start and startall; Poll one
--     round of request_thread; Many waitany and waitall, Testing waitsome and the tests of an Array
--     of requests. Bag is the abstract list of pending receives, which Refines compares Watch with.
--     Discipline is the interface for invariants of the requests: what a struct at an address has to
--     be like, and the laws that every store, call and emptied cell obeys. Methods and Polling prove
--     from it alone that the methods on Arrays and the thread keep such an invariant; Several and
--     Tidy are two instances. Sane is Tidy for some types of the structs.
--   Comm: src/mpi_comm.c. Struct has the struct and its classes; Args the checks of arguments;
--     Construct dup, create, split and the intercommunicators; Topology cart_* and graph_*;
--     Environment the queries, probes and comparisons; PointToPoint the blocking sends and recv;
--     Immediate isend to irecv and send_init to recv_init; Buffering buffer_for and unbuffer;
--     Collective bcast, gather and allgather; Scatter scatter and alltoall; Reduction the parts that
--     the four functions of Reduce have in common. Exchange has two processes that call allgather,
--     Combine an allreduce down to the callback of its operation, Overrun the loop over its resizes.
--   Session: the methods on requests in any order. Step has a constructor for each function of
--     src/mpi_request.c and src/mpi_comm.c that changes requests or makes one, for a round
--     of the thread and for the finaliser; Reached are the states after such steps. The list has
--     room where irecv and start are called: without it REALLOC_N leaves cells unwritten.
--   Startup: src/main.c, and Init_MPI in src/mpi.c with the Init_ functions of the other files.
--     Tables has what each registers, Methods the C functions with the number of their parameters,
--     Lookup how Ruby finds a method and checks the number of arguments; Keyvals is about the class
--     that no start defines.
--   Group: src/mpi_group.c.
--   Keyval: src/mpi_keyval.c, with the attributes of src/mpi_comm.c in Attributes.
--   Status, ModuleFunctions: src/mpi_status.c and src/mpi.c.
--   Samples: an Env and a state for the tests and the witnesses, which stand in the Tests files.
--
-- Conventions. A C function of the extension has its own name. An uninitialised local variable that
-- the code reads is an argument (length, stray, pointers). A pointer to a struct that Ruby wraps is
-- the struct, or for a request, whose struct is shared with the list, its index in the heap. An int
-- is an unbounded integer, since the extension only passes these numbers on and adds one to lengths;
-- the theorems of Session bound the lengths that arrive so that this addition does not overflow. The
-- field `comm` of a request points into the struct of its communicator; the model has a copy of the
-- handle there, so that programs in which the finaliser of a communicator runs before the last use of
-- its requests are outside it. In an attribute the bytes of the Ruby string stand for the pointer to
-- them, as they are while the collector leaves that string alone.
-- Loops are over lists, or over a count that is known before they start (the capacity of the list
-- of requests, the length of a vector, the size of a communicator), so no fuel is needed, but for the
-- loop of a reduction, which goes on while the operation asks for more bytes. Its rounds are bounded
-- by `fuel`, with none for too little of it. Where MPI does not give the handle of a freed type to
-- one of another size, two more than the largest dump has bytes are enough, since each round asks for
-- more than the last (Comm/ReduceEnds).
--
-- Not modelled: wtime and wtick; the start of the thread, whose rounds are steps of Session; what a
-- Ruby script does between the calls; what a reduction has written to its vector when it raises; the
-- garbage collector; the scheduling of several processes.
pub mod Base
pub mod Ruby
pub mod Mpi
pub mod Exception
pub mod State
pub mod Samples
pub mod Op
pub mod Request
pub mod Comm
pub mod Session
pub mod Startup
pub mod Group
pub mod Keyval
pub mod Status
pub mod ModuleFunctions
