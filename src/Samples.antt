-- ===== src/Samples.antt =====
-- Concrete data for the tests: an environment whose MPI is given, and a first state.
use mpi_ruby.Base.{
  ltb, if◌then◌else◌, zero, suc, ℤ, pos, negsuc, List, [], ◌∷◌, none, replicate, false,
}
use mpi_ruby.Ruby.{Value, Bytes, Outcome, ok, raised, type_error, other}
use mpi_ruby.Mpi.{Call, Code, Reply, Env}
use mpi_ruby.State.{World, Entry, OpSlot, Request, ReqType, Stage, Buf}

abbrev pub fine : Reply
fine = record {
  rv = Code.success;
  out0 = pos 0;
  out1 = pos 0;
  array0 = [];
  array1 = [];
  array2 = [];
  handle = 40;
  bytes = [];
  arrived = none;
  status = record { source = pos 3; tag = pos 9 };
  handles = [];
  statuses = [];
  arrivals = [];
  payloads = [];
}

abbrev pub to_int : Value → Outcome ℤ
to_int (Value.fixnum n) = ok n
to_int _ = raised type_error

-- `Marshal` on numbered objects: version bytes, then the number.
abbrev pub dump : Value → Outcome Bytes
dump (Value.object n) = ok (4 ∷ 8 ∷ suc n ∷ [])
dump _ = ok (4 ∷ 8 ∷ 105 ∷ [])

abbrev pub undump : Bytes → Outcome Value
undump (_ ∷ _ ∷ suc n ∷ _) = ok (Value.object n)
undump _ = raised (other 1)

abbrev pub word : Value → ℤ
word Value.qfalse = pos 0
word _ = pos 4

abbrev pub of_word : ℤ → Value
of_word (pos zero) = Value.qfalse
of_word _ = Value.fixnum (pos 0)

-- ALLOC_N raises for a negative number, and for more bytes than an int counts.
abbrev pub allocate : ℤ → Outcome (Unit {0})
allocate (pos n) = if ltb n 2147483648 then ok tt else raised (other 5)
allocate (negsuc _) = raised (other 4)

abbrev pub env_of : (List Call → Call → Reply) → Env
env_of reply = record {
  reply = reply;
  applied = λ _ _. [];
  delivered = λ log c outs. (reply log c).bytes;
  mpi_any_tag = negsuc 0;
  mpi_any_source = negsuc 1;
  mpi_undefined = negsuc 2;
  mpi_graph = pos 1;
  mpi_cart = pos 2;
  mpi_ident = pos 0;
  mpi_congruent = pos 1;
  mpi_similar = pos 2;
  request_null = 0;
  comm_world = 91;
  comm_self = 92;
  int_size = 4;
  fix2int = to_int;
  marshal_dump = dump;
  marshal_load = undump;
  string_value_cstr = λ bs. ok bs;
  alloc_n = allocate;
  null_string = other 2;
  negative_size = other 3;
  not_data = type_error;
  funcall = λ _ _ arg. ok arg;
  proc_call = λ _ a _. ok a;
  ary_entry = λ a _. ok a;
  word_of_value = word;
  value_of_word = of_word;
  junk_int = pos 77;
  junk_char = 7;
}

-- Every call of MPI succeeds.
abbrev pub calm : Env
calm = env_of (λ _ _. fine)

-- Every call of MPI fails.
abbrev pub broken : Env
broken = env_of (λ _ _. record fine { rv = Code.err_other })

abbrev pub free_slot : OpSlot
free_slot = record { proc = Value.qnil; assigned = false; resize = pos 0 }

abbrev pub start_world : World
start_world = record {
  log = [];
  op_table = replicate 2 free_slot;
  capacity = 2;
  rlist = replicate 2 Entry.empty;
  heap = [];
  attrs = [];
}

-- Memory from ALLOC.
abbrev pub raw_request : Request
raw_request = record {
  handle = 66;
  comm = 66;
  type = ReqType.normal;
  obj = Value.qnil;
  peer = pos 66;
  tag = pos 66;
  stage = Stage.tx_data;
  buflen = pos 66;
  buf = Buf.wild;
}
