-- ===== src/Request/Receive/Steps.antt =====
-- mpi_request.c: the steps of `wait` on a receive, when MPI succeeds.
use mpi_ruby.Base.{
  ℕ, suc, ℤ, pos_part, succ, ◌≡◌, refl, ap, Option, some, none, List, ◌∷◌, [], ◌++◌, arith,
  get_elem?, set, set-set, length, cells, true, Option-cases, inl, inr,
}
use mpi_ruby.Ruby.{Value, Bytes, ok}
use mpi_ruby.Mpi.{Call, Code, Reply, Datatype, Env}
use mpi_ruby.Exception.Laws.{mpi_exception_success}
use mpi_ruby.State.{Request, ReqType, Stage, Entry, Buf, World}
use mpi_ruby.Request.Memory.{until_nul}
use mpi_ruby.Request.Watch.{find_entry, request_unwatch}
use mpi_ruby.Request.Lifecycle.{wait_size, wait_data, take_object, post_data}

-- No byte is NUL, as StringValueCStr demands.
pub cells-snoc : (d : ℕ) (bs : Bytes) → cells (suc (length bs)) d (bs ++ (0 ∷ [])) ≡ bs ++ (0 ∷ [])
cells-snoc d [] = refl
cells-snoc d (c ∷ bs) = ap (λ t. c ∷ t) (cells-snoc d bs)

-- The list without the first cell that holds the request.
abbrev pub unlisted : Option ℕ → List Entry → List Entry
unlisted none cells = cells
unlisted (some i) cells = set cells i Entry.empty

-- The second receive, which `wait` posts once the size `n` has arrived.
abbrev pub data_receive : Request → ℤ → Call
data_receive mr n = Call.irecv (succ n) Datatype.mpi_byte mr.peer mr.tag mr.comm

-- The struct once `post_data` has run.
abbrev pub with_receive : Env → Request → List Call → Request
with_receive env mr log = record mr {
  handle = (env.reply log (data_receive mr mr.buflen)).handle;
  buf = Buf.owned (cells (pos_part (succ mr.buflen)) env.junk_char []);
}

pub post_data_lem :
    (env : Env) (self : ℕ) (mr : Request) (w : World)
    → (env.reply w.log (data_receive mr mr.buflen)).rv ≡ Code.success
    → env.alloc_n (succ mr.buflen) ≡ ok tt
    → mr.buf ≡ Buf.null
    → post_data env true self mr w ≡ (
      ok (with_receive env mr w.log),
      record w {
        log = data_receive mr mr.buflen ∷ w.log;
        heap = set w.heap self (some (with_receive env mr w.log));
      },
    )
unfolding post_data
post_data_lem env self mr w r room null = ground (
  arith,
  mpi_exception_success,
  r,
  room,
  null,
  set-set w.heap self (some mr) (some filled),
  set-set w.heap self (some filled) (some (with_receive env mr w.log)),
)
  where
    filled : Request
    filled = record mr { buf = Buf.owned (cells (pos_part (succ mr.buflen)) env.junk_char []) }

module _ (env : Env) (self : ℕ) (mr : Request) (w : World) (n : ℤ) (found : Option ℕ) where
  -- The struct when the size has arrived, and when the second receive is posted.
  abbrev pub sized : Request
  sized = record mr { handle = (env.reply w.log (Call.wait mr.handle)).handle; buflen = n }

  abbrev pub posted : Request
  posted = record (with_receive env sized (Call.wait mr.handle ∷ w.log)) { stage = Stage.tx_data }

  pub wait_size_lem :
      (env.reply w.log (Call.wait mr.handle)).rv ≡ Code.success
      → (env.reply w.log (Call.wait mr.handle)).arrived ≡ some n
      → (env.reply (Call.wait mr.handle ∷ w.log) (data_receive mr n)).rv ≡ Code.success
      → env.alloc_n (succ n) ≡ ok tt
      → mr.buf ≡ Buf.null
      → find_entry self w.capacity w.rlist 0 ≡ ok found
      → wait_size env self mr w ≡ (
        ok tt,
        record w {
          log = data_receive mr n ∷ Call.wait mr.handle ∷ w.log;
          rlist = unlisted found w.rlist;
          heap = set w.heap self (some posted);
        },
      )
  unfolding wait_size request_unwatch
  wait_size_lem r₁ a r₂ room null listed =
      let w₁ : World = record w {
        log = Call.wait mr.handle ∷ w.log;
        heap = set w.heap self (some sized);
      } in
      let step = post_data_lem env self sized w₁ r₂ room null in
      elim (Option-cases found) [
        | inl e ↦ ground (
          arith,
          mpi_exception_success,
          step,
          e,
          r₁,
          a,
          listed,
          set-set w.heap self (some sized) (some (with_receive env sized w₁.log)),
          set-set w.heap self (some (with_receive env sized w₁.log)) (some posted),
        )
        | inr (i, e) ↦ ground (
          arith,
          mpi_exception_success,
          step,
          e,
          r₁,
          a,
          listed,
          set-set w.heap self (some sized) (some (with_receive env sized w₁.log)),
          set-set w.heap self (some (with_receive env sized w₁.log)) (some posted),
        )
      ]

-- The struct of a receive that has been waited for.
abbrev pub delivered : Request → Value → Reply → Request
delivered mr obj r = record mr {
  handle = r.handle;
  obj = obj;
  peer = r.status.source;
  buf = Buf.null;
}

pub wait_data_lem :
    (env : Env) (self : ℕ) (mr : Request) (w : World) (bs str : Bytes) (obj : Value)
    → get_elem? w.heap self ≡ some (some mr)
    → mr.type ≡ ReqType.receive
    → mr.buf ≡ Buf.owned bs
    → (env.reply w.log (Call.wait mr.handle)).rv ≡ Code.success
    → until_nul (
        cells
          (pos_part (succ mr.buflen))
          env.junk_char
          (env.reply w.log (Call.wait mr.handle)).bytes)
      ≡ some str
    → env.marshal_load str ≡ ok obj
    → let r = env.reply w.log (Call.wait mr.handle) in
      wait_data env self w ≡ (
        ok r.status,
        record w {
          log = Call.wait mr.handle ∷ w.log;
          heap = set w.heap self (some (delivered mr obj r));
        },
      )
unfolding wait_data take_object
wait_data_lem env self mr w bs str obj here type buf good text loaded = ground (
  arith,
  mpi_exception_success,
  here,
  type,
  buf,
  good,
  text,
  loaded,
  set-set w.heap self (some filled) (some (record filled { obj = obj })),
  set-set w.heap self (some (record filled { obj = obj })) (some (delivered mr obj r)),
  set-set w.heap self (some filled) (some (delivered mr obj r)),
)
  where
    r : Reply
    r = env.reply w.log (Call.wait mr.handle)

    filled : Request
    filled = record mr {
      handle = r.handle;
      buf = Buf.owned (cells (pos_part (succ mr.buflen)) env.junk_char r.bytes);
      peer = r.status.source;
    }
