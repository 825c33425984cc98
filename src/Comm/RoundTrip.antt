-- ===== src/Comm/RoundTrip.antt =====
-- mpi_comm.c: what `recv` makes of the two messages of a send.
use mpi_ruby.Base.{
  ℕ, suc, ◌≤◌, ℤ, pos, pos_part, succ, [], ◌∷◌, ◌++◌, ◌≡◌, arith, false, length, take, cells,
  cells-cells, length-append, eq_int, ap, ◌∙◌, inl, inr,
}
use mpi_ruby.Ruby.{Value, Bytes, ok}
use mpi_ruby.Mpi.{Call, Code, Datatype, Buffer, SendMode, Reply, Env}
use mpi_ruby.Exception.Laws.{mpi_exception_success}
use mpi_ruby.State.{World}
use mpi_ruby.Comm.Struct.{CommStruct}
use mpi_ruby.Comm.Args.{fixnum_arg, tag_arg, source_arg}
use mpi_ruby.Comm.PointToPoint.{send_object, comm_recv, received}
use mpi_ruby.Comm.Decode.{Fix2IntOf, size_message, data_message, send_object_outcomes}

-- What MPI carries over: the `int` of a size message, and as many bytes as `count` says, where
-- those behind the buffer are whatever lies there.
abbrev pub carried_int : Call → ℤ
carried_int (Call.send _ (Buffer.int_at n) _ _ _ _ _) = n
carried_int _ = pos 0

abbrev pub carried_bytes : Env → Call → Bytes
carried_bytes env (Call.send _ (Buffer.bytes_at bs) count _ _ _ _) =
    cells (pos_part count) env.junk_char bs
carried_bytes env _ = []

-- The two calls of `recv` from a given rank.
abbrev pub size_receive : ℤ → ℤ → CommStruct → Call
size_receive src tag mc = Call.recv (pos 1) Datatype.mpi_int src tag mc.comm

abbrev pub data_receive : ℤ → ℤ → ℤ → CommStruct → Call
data_receive length src tag mc = Call.recv (succ length) Datatype.mpi_byte src tag mc.comm

-- What MPI answers to them.
abbrev pub size_reply : Env → ℤ → ℤ → CommStruct → World → Reply
size_reply env src tag mc w = env.reply w.log (size_receive src tag mc)

abbrev pub data_reply : Env → ℤ → ℤ → CommStruct → World → Reply
data_reply env src tag mc w =
    env.reply (size_receive src tag mc ∷ w.log)
      (data_receive (size_reply env src tag mc w).out0 src tag mc)

-- `recv` from a rank that is not MPI_ANY_SOURCE, where both calls succeed.
comm_recv_lem :
    (env : Env) (mc : CommStruct) (src tag : ℤ) (w : World) (obj : Value)
    → Fix2IntOf env src
    → Fix2IntOf env tag
    → eq_int src env.mpi_any_source ≡ false
    → (size_reply env src tag mc w).rv ≡ Code.success
    → (data_reply env src tag mc w).rv ≡ Code.success
    → env.alloc_n (succ (size_reply env src tag mc w).out0) ≡ ok tt
    → env.marshal_load
        (received env (size_reply env src tag mc w).out0 (data_reply env src tag mc w).bytes)
      ≡ ok obj
    → (comm_recv env mc (Value.fixnum src) (Value.fixnum tag) w).0
      ≡ ok (obj, (data_reply env src tag mc w).status)
unfolding comm_recv source_arg tag_arg fixnum_arg
comm_recv_lem env mc src tag w obj fs ft named g₁ g₂ room loaded =
    ground (arith, fs, ft, named, g₁, g₂, room, loaded, mpi_exception_success)

-- The two calls on top of the log of a send that returned.
send_object-log :
    (env : Env) (first second : SendMode) (mc : CommStruct) (length d t : ℤ) (obj v : Value)
    (dump str : Bytes) (w w₁ : World) (c₁ c₂ : Call)
    → Fix2IntOf env d
    → Fix2IntOf env t
    → env.marshal_dump obj ≡ ok dump
    → env.string_value_cstr dump ≡ ok str
    → send_object env first second mc length obj (Value.fixnum d) (Value.fixnum t) w ≡ (ok v, w₁)
    → w₁.log ≡ c₂ ∷ c₁ ∷ w.log
    → (c₁ ≡ size_message first length d t mc) × (c₂ ≡ data_message second str length d t mc)
send_object-log env first second mc length d t obj v dump str w w₁ c₁ c₂ fd ft hd hs sent top =
    elim (send_object_outcomes env first second mc length d t obj dump str w fd ft hd hs) [
      | inl (_, (m, e)) ↦ absurd (ground (arith, e, sent))
      | inr (inl (_, _, (m, e))) ↦ absurd (ground (arith, e, sent))
      | inr (inr (_, _, e)) ↦ ground (arith, e, sent, top)
    ]

-- A process sends an object that is marshalled as `str`, and the send returns, while its local
-- variable `length`, which no statement sets, holds `k`, at most the length of `str`. If the next
-- two messages that a receiver gets from `src` carry what the two calls of that send were given,
-- then `recv` loads the object from the first `k + 1` bytes of `str` with its NUL. That is the whole
-- of it only if `k` happens to be its length.
pub comm_recv-send_object :
    (env env' : Env) (first second : SendMode) (mc mc' : CommStruct) (k : ℕ) (d t src tag : ℤ)
    (sent v obj : Value) (dump str : Bytes) (w w₁ w' : World) (c₁ c₂ : Call)
    → k ≤ length str
    → Fix2IntOf env d
    → Fix2IntOf env t
    → env.marshal_dump sent ≡ ok dump
    → env.string_value_cstr dump ≡ ok str
    → send_object env first second mc (pos k) sent (Value.fixnum d) (Value.fixnum t) w ≡ (ok v, w₁)
    → w₁.log ≡ c₂ ∷ c₁ ∷ w.log
    → Fix2IntOf env' src
    → Fix2IntOf env' tag
    → eq_int src env'.mpi_any_source ≡ false
    → (size_reply env' src tag mc' w').rv ≡ Code.success
    → (data_reply env' src tag mc' w').rv ≡ Code.success
    → (size_reply env' src tag mc' w').out0 ≡ carried_int c₁
    → (data_reply env' src tag mc' w').bytes ≡ carried_bytes env c₂
    → env'.alloc_n (succ (pos k)) ≡ ok tt
    → env'.marshal_load (take (suc k) (str ++ (0 ∷ []))) ≡ ok obj
    → (comm_recv env' mc' (Value.fixnum src) (Value.fixnum tag) w').0
      ≡ ok (obj, (data_reply env' src tag mc' w').status)
comm_recv-send_object env env' first second mc mc' k d t src tag sent v obj dump str w w₁ w' c₁ c₂
      short fd ft hd hs returned top fs ftag named g₁ g₂ size text room loaded =
    comm_recv_lem env' mc' src tag w' obj fs ftag named g₁ g₂ (rw announced room)
      (rw (announced, carried, whole) loaded)
  where
    calls : (c₁ ≡ size_message first (pos k) d t mc) × (c₂ ≡ data_message second str (pos k) d t mc)
    calls =
        send_object-log env first second mc (pos k) d t sent v dump str w w₁ c₁ c₂ fd ft hd hs
          returned top

    announced : (size_reply env' src tag mc' w').out0 ≡ pos k
    announced = size ∙ ap carried_int calls.0

    carried : (data_reply env' src tag mc' w').bytes ≡ cells (suc k) env.junk_char (str ++ (0 ∷ []))
    carried = text ∙ ap (carried_bytes env) calls.1

    whole :
        cells (suc k) env'.junk_char (cells (suc k) env.junk_char (str ++ (0 ∷ [])))
        ≡ take (suc k) (str ++ (0 ∷ []))
    whole =
        cells-cells (suc k) env'.junk_char env.junk_char (str ++ (0 ∷ []))
          (omega (arith, length-append {0} str (0 ∷ [])))
