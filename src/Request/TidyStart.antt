-- ===== src/Request/TidyStart.antt =====
-- mpi_request.c: `start` keeps the requests in order, where the list has room.
use mpi_ruby.Base.{
  ℕ, zero, suc, ◌≡◌, ◌≢◌, refl, ap, sym, subst, ◌∙◌, ◌⊎◌, inl, inr, List, [], ◌∷◌, ◌++◌, Option,
  none, some, get_elem?, set, length-set, pos, arith,
}
use mpi_ruby.Ruby.{Value, Bytes, Outcome, ok, raised, fault}
use mpi_ruby.Mpi.{Call, Reply, Datatype, Buffer, SendMode, Env}
use mpi_ruby.Exception.{mpi_exception}
use mpi_ruby.State.{
  Request, ReqType, Buf, Entry, World, M, pure, ◌>>=◌, ◌>>◌, lift, call, load, store, checked,
}
use mpi_ruby.State.Keeps.{Keeps-checked, Moves, Moves-then, Moves-last, looked}
use mpi_ruby.Request.Memory.{free_buf, freed}
use mpi_ruby.Request.Watch.{request_watch}
use mpi_ruby.Request.Start.{start_send, start_receive, start_as, request_start}
use mpi_ruby.Request.Refines.{IsWritten-set_entry, find_empty-room, requests-set_entry}
use mpi_ruby.Request.Discipline.{
  Discipline, Postable, Leaves, Leaves-stored, Leaves-store, Leaves-call, Leaves-lift,
}
use mpi_ruby.Request.Parts.{Leaves-then}
use mpi_ruby.Request.Tidy.{HasMemory, IsSize, Kind, Live, Tidy}
use mpi_ruby.Request.TidyPost.{tidy}

-- An entry of a list with a cell written is the one written, or was there before.
entry_or_before :
    (cells : List Entry) (k a j b : ℕ)
    → get_elem? (set cells k (Entry.entry a)) j ≡ some (Entry.entry b)
    → (b ≡ a) ⊎ (get_elem? cells j ≡ some (Entry.entry b))
entry_or_before [] k a j b h = inr h
entry_or_before (x ∷ cells) zero a zero b h = inl (ground (arith, h))
entry_or_before (x ∷ cells) zero a (suc j) b h = inr h
entry_or_before (x ∷ cells) (suc k) a zero b h = inr h
entry_or_before (x ∷ cells) (suc k) a (suc j) b h = entry_or_before cells k a j b h

-- Less is asked of the list and of the heap.
pub Tidy-weaken :
    (types : ℕ → ReqType) (room : ℕ) (pins : List ℕ) (w : World)
    → Tidy types room pins w
    → Tidy types 0 [] w
Tidy-weaken types room pins w (kinds, listed, written, cap, fits, live) =
    (kinds, listed, written, cap, omega (arith, fits), tt)

Tidy-request_watch :
    (types : ℕ → ReqType) (a : ℕ)
    → types a ≡ ReqType.receive
    → Moves (Tidy types 1 (a ∷ [])) (Tidy types 0 []) (request_watch a)
unfolding request_watch
Tidy-request_watch types a receive w (kinds, listed, written, cap, fits, (live, _)) =
    let (k, found, at) = find_empty-room w.rlist 0 written (omega (arith, fits)) in
    let rlist' = set w.rlist k (Entry.entry a) in
    let watched : request_watch a w ≡ (ok tt, record w { rlist = rlist' }) =
      ground (arith, cap, found) in
    subst (λ r. Tidy types 0 [] r.1) (sym watched)
      (
        kinds,
        λ j b at_j. elim (entry_or_before w.rlist k a j b at_j) [
          | inl same ↦ (ap types same ∙ receive, subst (λ x. Live x w) (sym same) live)
          | inr before ↦ listed j b before
        ],
        IsWritten-set_entry w.rlist k a written,
        cap ∙ sym (length-set w.rlist k (Entry.entry a)),
        omega (
          arith,
          fits,
          (requests-set_entry w.rlist k a at).0,
          length-set w.rlist k (Entry.entry a),
        ),
        tt,
      )

-- What follows a load.
abbrev from_loaded : {B : Type 0} → (Request → M B) → Outcome Request × World → Outcome B × World
from_loaded f r = elim r.0 [
  | ok mr ↦ f mr r.1
  | raised e ↦ (raised e, r.1)
  | fault e ↦ (fault e, r.1)
]

module _ (env : Env) (memory : HasMemory env) (types : ℕ → ReqType) where
  -- The request that is started is live, and there is room for it.
  abbrev order : ℕ → Discipline env
  order self = tidy env memory types 1 (self ∷ [])

  Tidy-start_receive :
      (self : ℕ) (mr : Request)
      → Kind types self mr
      → types self ≡ ReqType.receive
      → Moves (Tidy types 1 (self ∷ [])) (Tidy types 0 []) (start_receive env self mr)
  unfolding start_receive
  Tidy-start_receive self mr kind receive =
      let P = Tidy types 1 (self ∷ []) in
      let P' = Tidy types 0 [] in
      let weaker = Tidy-weaken types 1 (self ∷ []) in
      let c = Call.irecv (pos 1) Datatype.mpi_int mr.peer mr.tag mr.comm in
      let stored : Reply → M (Unit {0}) = λ r.
        store self (record mr { handle = r.handle })
        >> (lift (mpi_exception r.rv) >> request_watch self) in
      Moves-last P P' (call env c) stored weaker (λ w p. (order self).calls c w p)
        λ r.
          Moves-last P P' (store self (record mr { handle = r.handle }))
            (λ _. lift (mpi_exception r.rv) >> request_watch self) weaker
            (Leaves-store env (order self) self (record mr { handle = r.handle }) kind)
            λ _.
              Moves-last P P' (lift (mpi_exception r.rv)) (λ _. request_watch self) weaker
                (λ w p. p) (λ _. Tidy-request_watch types self receive)

  Tidy-start_send :
      (mode : SendMode) (self : ℕ) (mr : Request)
      → mr.type ≡ types self
      → types self ≢ ReqType.receive
      → Leaves env (order self) (start_send env mode self mr)
  unfolding start_send
  Tidy-start_send mode self mr t no_receive =
      let d = order self in
      let absent : (m : Request) → types self ≡ ReqType.receive → Postable IsSize m =
        λ m e. absurd (no_receive e) in
      let mr₀ : Request = record mr { buf = freed mr.buf } in
      let mr₁ : Bytes → Request = λ bs. record mr { buf = Buf.borrowed (bs ++ (0 ∷ [])) } in
      let c₁ =
        Call.isend mode (Buffer.int_at mr.buflen) (pos 1) Datatype.mpi_int mr.peer mr.tag mr.comm in
      let c₂ =
        Call.isend mode Buffer.pointer_at mr.buflen Datatype.mpi_byte mr.peer mr.tag mr.comm in
      let mr₂ : Bytes → Reply → Request = λ bs r. record (mr₁ bs) { handle = r.handle } in
      let sent : Bytes → Reply → M (Unit {0}) =
        λ bs r. store self (mr₂ bs r) >> lift (mpi_exception r.rv) in
      let size_sent : Bytes → M (Unit {0}) = λ bs. checked env c₁ >> (call env c₂ >>= sent bs) in
      let borrows : Bytes → M (Unit {0}) = λ bs. store self (mr₁ bs) >> size_sent bs in
      let frees : Bytes → M (Unit {0}) =
        λ dump. store self mr₀ >> (lift (env.string_value_cstr dump) >>= borrows) in
      Leaves-lift env d (env.marshal_dump mr.obj) (λ dump. lift (free_buf mr.buf) >> frees dump)
        λ dump.
          Leaves-lift env d (free_buf mr.buf) (λ _. frees dump)
            λ _.
              Leaves-stored env d self mr₀ (lift (env.string_value_cstr dump) >>= borrows)
                (t, absent mr₀)
                (Leaves-lift env d (env.string_value_cstr dump) borrows λ bs.
                  Leaves-stored env d self (mr₁ bs) (size_sent bs) (t, absent (mr₁ bs))
                    (Leaves-then env d (checked env c₁) (λ _. call env c₂ >>= sent bs)
                      (Keeps-checked d.Holds env c₁ d.calls)
                      λ _. Leaves-call env d c₂ (sent bs) λ r.
                        Leaves-stored env d self (mr₂ bs r) (lift (mpi_exception r.rv))
                          (t, absent (mr₂ bs r)) (λ w p. p)))

  sends :
      (self : ℕ) (mr : Request) (mode : SendMode)
      → types self ≢ ReqType.receive
      → Kind types self mr
      → Moves (Tidy types 1 (self ∷ [])) (Tidy types 0 []) (start_send env mode self mr)
  sends self mr mode no_receive kind w p =
      Tidy-weaken types 1 (self ∷ []) (start_send env mode self mr w).1
        (Tidy-start_send mode self mr kind.0 no_receive w p)

  Tidy-start_as :
      (self : ℕ) (mr : Request) (t : ReqType)
      → t ≡ types self
      → Kind types self mr
      → Moves (Tidy types 1 (self ∷ [])) (Tidy types 0 []) (start_as env t self mr)
  unfolding start_as
  Tidy-start_as self mr ReqType.psend e kind = sends self mr SendMode.standard (λ r. cc (e, r)) kind
  Tidy-start_as self mr ReqType.pbsend e kind =
      sends self mr SendMode.buffered (λ r. cc (e, r)) kind
  Tidy-start_as self mr ReqType.pssend e kind =
      sends self mr SendMode.synchronous (λ r. cc (e, r)) kind
  Tidy-start_as self mr ReqType.prsend e kind = sends self mr SendMode.ready (λ r. cc (e, r)) kind
  Tidy-start_as self mr ReqType.receive e kind = Tidy-start_receive self mr kind (sym e)
  Tidy-start_as self mr ReqType.normal e kind =
      let c = Call.start mr.handle in
      λ w p. Tidy-weaken types 1 (self ∷ []) ((checked env c >> pure tt) w).1 (
        Leaves-then env (order self) (checked env c) (λ _. pure tt)
          (Keeps-checked (order self).Holds env c (order self).calls) (λ _ w p. p) w p)

  -- The struct that a block starts with is live.
  pinned :
      {B : Type 0} (self : ℕ) (f : Request → M B)
      → ((mr : Request)
          → Kind types self mr
          → Moves (Tidy types 1 (self ∷ [])) (Tidy types 0 []) (f mr))
      → Moves (Tidy types 1 []) (Tidy types 0 []) (load self >>= f)
  pinned self f hf w p = go (get_elem? w.heap self) refl
    where
      go :
          (o : Option (Option Request))
          → get_elem? w.heap self ≡ o
          → Tidy types 0 [] (from_loaded f (looked o w)).1
      go none e = Tidy-weaken types 1 [] w p
      go (some none) e = Tidy-weaken types 1 [] w p
      go (some (some mr)) e =
          let (kinds, listed, written, cap, fits, live) = p in
          hf mr (kinds self mr e) w (kinds, listed, written, cap, fits, ((mr, e), tt))

  pub Tidy-request_start :
      (self : ℕ) → Moves (Tidy types 1 []) (Tidy types 0 []) (request_start env self)
  unfolding request_start
  Tidy-request_start self =
      pinned self (λ mr. start_as env mr.type self mr >> pure Value.qtrue)
        λ mr kind.
          Moves-then (Tidy types 1 (self ∷ [])) (Tidy types 0 []) (start_as env mr.type self mr)
            (λ _. pure Value.qtrue) (Tidy-start_as self mr mr.type kind.0 kind) (λ _ w p. p)
