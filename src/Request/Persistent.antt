-- ===== src/Request/Persistent.antt =====
-- mpi_request.c: what `start` does to a persistent send.
use mpi_ruby.Base.{
  ℕ, ℤ, pos, ◌≡◌, refl, Option, some, none, List, ◌∷◌, [], ◌++◌, arith, get_elem?,
  get_elem?-set_over, set, set-set, length, get_elem?-append_length,
}
use mpi_ruby.Ruby.{Value, Bytes, ok, fault, Fault}
use mpi_ruby.Mpi.{Call, Code, Buffer, Datatype, SendMode, Env}
use mpi_ruby.Exception.Laws.{mpi_exception_success}
use mpi_ruby.State.{Request, ReqType, Buf, World}
use mpi_ruby.Request.Memory.{NewRequest, new_struct, request_new}
use mpi_ruby.Request.Start.{request_start, start_send, start_as}

-- The MPI functions that the `switch` of `request_start` picks for a persistent send.
abbrev pub mode_of : ReqType → Option SendMode
mode_of ReqType.psend = some SendMode.standard
mode_of ReqType.pbsend = some SendMode.buffered
mode_of ReqType.pssend = some SendMode.synchronous
mode_of ReqType.prsend = some SendMode.ready
mode_of ReqType.receive = none
mode_of ReqType.normal = none

-- The two messages of a persistent send.
abbrev pub size_message : SendMode → Request → Call
size_message mode mr =
    Call.isend mode (Buffer.int_at mr.buflen) (pos 1) Datatype.mpi_int mr.peer mr.tag mr.comm

abbrev pub data_message : SendMode → Request → Call
data_message mode mr =
    Call.isend mode Buffer.pointer_at mr.buflen Datatype.mpi_byte mr.peer mr.tag mr.comm

start_as-send :
    (env : Env) (type : ReqType) (self : ℕ) (mr : Request) {mode : SendMode}
    → mode_of type ≡ some mode
    → start_as env type self mr ≡ start_send env mode self mr
unfolding start_as
start_as-send env ReqType.psend self mr e = cc
start_as-send env ReqType.pbsend self mr e = cc
start_as-send env ReqType.pssend self mr e = cc
start_as-send env ReqType.prsend self mr e = cc
start_as-send env ReqType.receive self mr e = cc
start_as-send env ReqType.normal self mr e = cc

-- The struct after a start: `buf` points into the Ruby string, `handle` is that of the second
-- message.
abbrev pub started : Env → SendMode → Request → Bytes → List Call → Request
started env mode mr str log = record mr {
  handle = (env.reply (size_message mode mr ∷ log) (data_message mode mr)).handle;
  buf = Buf.borrowed (str ++ (0 ∷ []));
}

start_send_lem :
    (env : Env) (mode : SendMode) (self : ℕ) (mr : Request) (dump str : Bytes) (w : World)
    → env.marshal_dump mr.obj ≡ ok dump
    → env.string_value_cstr dump ≡ ok str
    → mr.buf ≡ Buf.null
    → (env.reply w.log (size_message mode mr)).rv ≡ Code.success
    → (env.reply (size_message mode mr ∷ w.log) (data_message mode mr)).rv ≡ Code.success
    → start_send env mode self mr w ≡ (
      ok tt,
      record w {
        log = data_message mode mr ∷ size_message mode mr ∷ w.log;
        heap = set w.heap self (some (started env mode mr str w.log));
      },
    )
unfolding start_send
start_send_lem env mode self mr dump str w d c n r₁ r₂ = ground (
  arith,
  d,
  c,
  n,
  r₁,
  r₂,
  mpi_exception_success,
  set-set w.heap self (some (record mr { buf = Buf.borrowed (str ++ (0 ∷ [])) }))
      (some (started env mode mr str w.log)),
  set-set w.heap self (some mr) (some (record mr { buf = Buf.borrowed (str ++ (0 ∷ [])) })),
)

request_start-send :
    (env : Env) (mode : SendMode) (self : ℕ) (mr : Request) (dump str : Bytes) (w : World)
    → get_elem? w.heap self ≡ some (some mr)
    → mode_of mr.type ≡ some mode
    → env.marshal_dump mr.obj ≡ ok dump
    → env.string_value_cstr dump ≡ ok str
    → mr.buf ≡ Buf.null
    → (env.reply w.log (size_message mode mr)).rv ≡ Code.success
    → (env.reply (size_message mode mr ∷ w.log) (data_message mode mr)).rv ≡ Code.success
    → request_start env self w ≡ (
      ok Value.qtrue,
      record w {
        log = data_message mode mr ∷ size_message mode mr ∷ w.log;
        heap = set w.heap self (some (started env mode mr str w.log));
      },
    )
unfolding request_start
request_start-send env mode self mr dump str w h m d c n r₁ r₂ = ground (
  arith,
  h,
  start_as-send env mr.type self mr m,
  start_send_lem env mode self mr dump str w d c n r₁ r₂,
)

-- A send whose buffer points into a Ruby string frees that pointer when it starts.
request_start-borrowed :
    (env : Env) (mode : SendMode) (self : ℕ) (mr : Request) (dump held : Bytes) (w : World)
    → get_elem? w.heap self ≡ some (some mr)
    → mode_of mr.type ≡ some mode
    → env.marshal_dump mr.obj ≡ ok dump
    → mr.buf ≡ Buf.borrowed held
    → (request_start env self w).0 ≡ fault Fault.bad_free
unfolding request_start start_send
request_start-borrowed env mode self mr dump held w h m d b =
    ground (arith, h, start_as-send env mr.type self mr m, d, b)

-- A persistent send of any of the four kinds, made by `request_new` and started, with a `dump` and
-- a C string that Ruby yields and both calls of MPI succeeding: whatever the object, it announces
-- the size 0 and then sends 0 bytes, from the address of the pointer. A second `start` frees a
-- pointer into a Ruby string, which is undefined behaviour.
pub persistent_send_sends_nothing :
    (env : Env) (raw : Request) (type : ReqType) (mode : SendMode) (obj : Value) (peer tag : ℤ)
    (comm : ℕ) (dump str : Bytes) (w : World)
    → mode_of type ≡ some mode
    → env.marshal_dump obj ≡ ok dump
    → env.string_value_cstr dump ≡ ok str
    → ((log : List Call) (c : Call) → (env.reply log c).rv ≡ Code.success)
    → (self : ℕ) × (w₁ w₂ : World) × (request_new raw (NewRequest.of_send type obj peer tag comm) w
        ≡ (ok self, w₁))
      × (request_start env self w₁ ≡ (ok Value.qtrue, w₂))
      × (w₂.log
          ≡ Call.isend mode Buffer.pointer_at (pos 0) Datatype.mpi_byte peer tag comm
            ∷ Call.isend mode (Buffer.int_at (pos 0)) (pos 1) Datatype.mpi_int peer tag comm
            ∷ w.log)
      × ((request_start env self w₂).0 ≡ fault Fault.bad_free)
unfolding request_new new_struct
persistent_send_sends_nothing env raw type mode obj peer tag comm dump str w m d c good =
    let mr : Request = new_struct raw (NewRequest.of_send type obj peer tag comm) in
    let w₁ : World = record w { heap = w.heap ++ (some mr ∷ []) } in
    let there = get_elem?-append_length w.heap (some mr) in
    let again =
      get_elem?-set_over w₁.heap (length w.heap) (some (started env mode mr str w.log)) there in
    (
      length w.heap,
      w₁,
      record w {
        log = data_message mode mr ∷ size_message mode mr ∷ w.log;
        heap = set w₁.heap (length w.heap) (some (started env mode mr str w.log));
      },
      refl,
      request_start-send env mode (length w.heap) mr dump str w₁ there m d c refl (good _ _)
          (good _ _),
      refl,
      request_start-borrowed env mode (length w.heap) (started env mode mr str w.log) dump
          (str ++ (0 ∷ [])) _ again m d refl,
    )
