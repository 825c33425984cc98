-- ===== src/Comm/Decode.antt =====
-- mpi_comm.c: arguments that are no numbers are refused before MPI is called.
use mpi_ruby.Base.{
  ℤ, pos, succ, List, [], ◌∷◌, ◌++◌, ◌≡◌, ◌≢◌, refl, arith, false, String, length, ◌⊎◌, inl, inr,
}
use mpi_ruby.Ruby.{
  Value, Bytes, ok, raised, type_error, mpi_error, is_any_tag, is_any_source, check_fixnum,
}
use mpi_ruby.Mpi.{Call, Code, Datatype, Buffer, SendMode, Env}
use mpi_ruby.Exception.Laws.{mpi_exception_success, mpi_exception_raises, Code-cases}
use mpi_ruby.State.{World}
use mpi_ruby.Comm.Struct.{CommStruct}
use mpi_ruby.Comm.Args.{fixnum_arg, tag_arg, source_arg, int_array, fixnums}
use mpi_ruby.Comm.PointToPoint.{send_object, comm_recv, marshalled}

-- The documented behaviour of FIX2INT: a Fixnum that fits an `int` is that `int`.
abbrev pub Fix2IntOf : Env → ℤ → Type 0
Fix2IntOf env n = env.fix2int (Value.fixnum n) ≡ ok n

-- `tag_arg` on each kind of value: ANY_TAG is MPI's constant, a Fixnum its number, and everything
-- else (also ANY_SOURCE) a TypeError; MPI is not called.
tag_arg_lem :
    (env : Env) (v : Value) (w : World)
    → (v ≡ Value.any_tag) × (tag_arg env v w ≡ (ok env.mpi_any_tag, w))
      ⊎ (((n : ℤ) × (v ≡ Value.fixnum n) × (tag_arg env v w ≡ (env.fix2int v, w)))
          ⊎ ((is_any_tag v ≡ false) × (tag_arg env v w ≡ (raised type_error, w))))
unfolding tag_arg fixnum_arg
tag_arg_lem env Value.any_tag w = inl (refl, refl)
tag_arg_lem env (Value.fixnum n) w = inr (inl (n, refl, ground arith))
tag_arg_lem env _ w = inr (inr (refl, refl))

-- FIX2INT takes each of these Fixnums.
abbrev pub AllFit : Env → List ℤ → Type 0
AllFit env [] = Unit
AllFit env (n ∷ ns) = Fix2IntOf env n × AllFit env ns

-- An Array of Fixnums that fit becomes the array of their numbers.
pub int_array-fixnums :
    (env : Env) (ns : List ℤ) (w : World)
    → AllFit env ns
    → int_array env (fixnums ns) w ≡ (ok ns, w)
unfolding int_array
int_array-fixnums env [] w fit = refl
int_array-fixnums env (n ∷ ns) w fit = ground (arith, fit.0, int_array-fixnums env ns w fit.1)

-- A value that is no Fixnum, nor ANY_TAG or ANY_SOURCE, is refused as the destination of a send, as
-- its tag behind a good destination, and as the source of `recv`: the method raises TypeError and
-- calls no MPI function, whatever the other arguments.
pub bad_arguments_refused :
    (env : Env) (first second : SendMode) (mc : CommStruct) (length d : ℤ) (obj bad other : Value)
    (w : World)
    → check_fixnum bad ≡ raised type_error
    → is_any_tag bad ≡ false
    → is_any_source bad ≡ false
    → Fix2IntOf env d
    → (send_object env first second mc length obj bad other w ≡ (raised type_error, w))
      × (send_object env first second mc length obj (Value.fixnum d) bad w ≡ (raised type_error, w))
      × (comm_recv env mc bad other w ≡ (raised type_error, w))
unfolding send_object comm_recv fixnum_arg tag_arg source_arg
bad_arguments_refused env first second mc length d obj bad other w h a s law =
    (ground (arith, h), ground (arith, h, law, a), ground (arith, h, s))

-- The two messages of a send.
abbrev pub size_message : SendMode → ℤ → ℤ → ℤ → CommStruct → Call
size_message mode length dest tag mc =
    Call.send mode (Buffer.int_at length) (pos 1) Datatype.mpi_int dest tag mc.comm

abbrev pub data_message : SendMode → Bytes → ℤ → ℤ → ℤ → CommStruct → Call
data_message mode str length dest tag mc =
    Call.send mode (Buffer.bytes_at (str ++ (0 ∷ []))) (succ length) Datatype.mpi_byte dest tag
      mc.comm

-- A send of an object that Ruby marshals, to a rank and with a tag that fit, ends in one of three
-- ways. The size message fails: it raises MPI::Exception, and the data is not sent. The data message
-- fails: it raises after both calls. Both succeed: it returns true after both calls.
pub send_object_outcomes :
    (env : Env) (first second : SendMode) (mc : CommStruct) (length d t : ℤ) (obj : Value)
    (dump str : Bytes) (w : World)
    → Fix2IntOf env d
    → Fix2IntOf env t
    → env.marshal_dump obj ≡ ok dump
    → env.string_value_cstr dump ≡ ok str
    → let c₁ = size_message first length d t mc in
      let c₂ = data_message second str length d t mc in
      let r₁ = env.reply w.log c₁ in
      let r₂ = env.reply (c₁ ∷ w.log) c₂ in
      let out = send_object env first second mc length obj (Value.fixnum d) (Value.fixnum t) w in
      (r₁.rv ≢ Code.success)
        × ((m : String) × (out ≡ (raised (mpi_error m), record w { log = c₁ ∷ w.log })))
      ⊎ ((r₁.rv ≡ Code.success)
            × (r₂.rv ≢ Code.success)
            × ((m : String) × (out ≡ (raised (mpi_error m), record w { log = c₂ ∷ c₁ ∷ w.log })))
          ⊎ (r₁.rv ≡ Code.success)
            × (r₂.rv ≡ Code.success)
            × (out ≡ (ok Value.qtrue, record w { log = c₂ ∷ c₁ ∷ w.log })))
unfolding send_object fixnum_arg tag_arg marshalled
send_object_outcomes env first second mc length d t obj dump str w fd ft hd hs =
    elim (Code-cases r₁) [
      | inr bad ↦
          (let (m, e) = mpi_exception_raises _ bad in
            inl (bad, (m, ground (arith, fd, ft, hd, hs, e))))
      | inl good ↦ elim (Code-cases r₂) [
        | inr bad ↦
            (let (m, e) = mpi_exception_raises _ bad in
              inr (
                inl
                  (good, bad, (m, ground (arith, fd, ft, hd, hs, good, e, mpi_exception_success)))))
        | inl fine ↦
            inr
              (inr (good, fine, ground (arith, fd, ft, hd, hs, good, fine, mpi_exception_success)))
      ]
    ]
  where
    r₁ : Code
    r₁ = (env.reply w.log (size_message first length d t mc)).rv

    r₂ : Code
    r₂ =
        (env.reply (size_message first length d t mc ∷ w.log)
          (data_message second str length d t mc)).rv
