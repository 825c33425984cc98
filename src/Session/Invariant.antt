-- ===== src/Session/Invariant.antt =====
-- Every step of a program keeps the requests in order.
use mpi_ruby.Base.{
  ℕ, zero, suc, ◌≡◌, refl, ap, sym, subst, ◌∙◌, [], Option, some, get_elem?, replicate, arith,
}
use mpi_ruby.Mpi.{Env}
use mpi_ruby.State.{Request, ReqType, Entry, World}
use mpi_ruby.Request.Watch.{init_rlist, initial_rlist_cap}
use mpi_ruby.Request.Methods.{
  Leaves-request_waitall, Leaves-request_waitsome, Leaves-request_testany, Leaves-request_testall,
  Leaves-request_testsome,
}
use mpi_ruby.Request.Polling.{Leaves-request_thread_round}
use mpi_ruby.Request.Tidy.{HasMemory, Tidy}
use mpi_ruby.Request.TidyPost.{tidy}
use mpi_ruby.Request.TidyWait.{Tidy-request_wait, Tidy-request_test, Tidy-request_cancel}
use mpi_ruby.Request.TidyAny.{Leaves-request_startall, Tidy-request_waitany}
use mpi_ruby.Request.Sane.{Sane, Sane-request_start, Sane-request_free}
use mpi_ruby.Session.Makes.{
  Sane-comm_isend, Sane-comm_issend, Sane-comm_ibsend, Sane-comm_irsend, Sane-comm_recv_init,
  Sane-comm_irecv, Sane-comm_send_init, Sane-comm_bsend_init, Sane-comm_ssend_init,
  Sane-comm_rsend_init,
}
use mpi_ruby.Session.Step.{HasRoom, Step, Reached}

-- Room on the list is room in the invariant.
roomy : (w : World) → HasRoom w → Sane 0 w → Sane 1 w
roomy w room (types, (kinds, listed, written, full, fits, live)) =
    (types, (kinds, listed, written, full, omega (arith, room, full), live))

-- Nothing that the order is about has changed.
elsewhere-Tidy :
    (types : ℕ → ReqType) (w w' : World)
    → w'.heap ≡ w.heap
    → w'.rlist ≡ w.rlist
    → w'.capacity ≡ w.capacity
    → Tidy types 0 [] w
    → Tidy types 0 [] w'
elsewhere-Tidy types w w' heap rlist capacity p =
    subst (λ h. Tidy types 0 [] (record w' { heap = h })) (sym heap)
      (subst (λ l. Tidy types 0 [] (record w' { heap = w.heap; rlist = l })) (sym rlist)
        (subst (λ c. Tidy types 0 [] (record w' { heap = w.heap; rlist = w.rlist; capacity = c }))
          (sym capacity) p))

-- `Init_Request` leaves a list of NULLs.
Sane-init : (w₀ : World) → w₀.heap ≡ [] → Sane 0 (init_rlist w₀)
unfolding init_rlist
Sane-init w₀ none_yet = (
  λ _. ReqType.normal,
  (
    λ b mr h. absurd (no_struct b (ap (λ t. get_elem? t b) (sym none_yet) ∙ h)),
    λ k a at. absurd (no_entry initial_rlist_cap k at),
    tt,
    refl,
    omega arith,
    tt,
  ),
)
  where
    no_struct : (b : ℕ) {mr : Request} → get_elem? {A = Option Request} [] b ≡ some (some mr) → ⊥
    no_struct b h = cc

    no_entry : (n k : ℕ) {a : ℕ} → get_elem? (replicate n Entry.empty) k ≡ some (Entry.entry a) → ⊥
    no_entry zero k h = cc
    no_entry (suc n) zero h = cc
    no_entry (suc n) (suc k) h = no_entry n k h

module _ (env : Env) (memory : HasMemory env) where
  Sane-Step : (w w' : World) → Step env w w' → Sane 0 w → Sane 0 w'
  Sane-Step _ _ (Step.isend mc raw len obj dest tag w) p =
      Sane-comm_isend env mc raw len obj dest tag w p
  Sane-Step _ _ (Step.issend mc raw len obj dest tag w) p =
      Sane-comm_issend env mc raw len obj dest tag w p
  Sane-Step _ _ (Step.ibsend mc raw len obj dest tag w) p =
      Sane-comm_ibsend env mc raw len obj dest tag w p
  Sane-Step _ _ (Step.irsend mc raw len obj dest tag w) p =
      Sane-comm_irsend env mc raw len obj dest tag w p
  Sane-Step _ _ (Step.irecv mc raw src tag w room) p =
      Sane-comm_irecv env mc raw memory src tag w (roomy w room p)
  Sane-Step _ _ (Step.recv_init mc raw src tag w) p = Sane-comm_recv_init env mc raw src tag w p
  Sane-Step _ _ (Step.send_init mc raw obj dest tag w) p =
      Sane-comm_send_init env mc raw obj dest tag w p
  Sane-Step _ _ (Step.bsend_init mc raw obj dest tag w) p =
      Sane-comm_bsend_init env mc raw obj dest tag w p
  Sane-Step _ _ (Step.ssend_init mc raw obj dest tag w) p =
      Sane-comm_ssend_init env mc raw obj dest tag w p
  Sane-Step _ _ (Step.rsend_init mc raw obj dest tag w) p =
      Sane-comm_rsend_init env mc raw obj dest tag w p
  Sane-Step _ _ (Step.start self w room) p = Sane-request_start env memory self w (roomy w room p)
  Sane-Step _ _ (Step.startall rreqs w) (types, p) =
      (types, Leaves-request_startall env (tidy env memory types 0 []) rreqs w p)
  Sane-Step _ _ (Step.wait self w) (types, p) =
      (types, Tidy-request_wait env memory types 0 [] self w p)
  Sane-Step _ _ (Step.test self w) (types, p) =
      (types, Tidy-request_test env memory types 0 [] self w p)
  Sane-Step _ _ (Step.cancel self w) (types, p) =
      (types, Tidy-request_cancel env memory types 0 [] self w p)
  Sane-Step _ _ (Step.waitany rreqs w) (types, p) =
      (types, Tidy-request_waitany env memory types 0 [] rreqs w p)
  Sane-Step _ _ (Step.waitall rreqs w) (types, p) =
      (types, Leaves-request_waitall env (tidy env memory types 0 []) rreqs w p)
  Sane-Step _ _ (Step.waitsome rreqs w) (types, p) =
      (types, Leaves-request_waitsome env (tidy env memory types 0 []) rreqs w p)
  Sane-Step _ _ (Step.testany rreqs w) (types, p) =
      (types, Leaves-request_testany env (tidy env memory types 0 []) rreqs w p)
  Sane-Step _ _ (Step.testall rreqs w) (types, p) =
      (types, Leaves-request_testall env (tidy env memory types 0 []) rreqs w p)
  Sane-Step _ _ (Step.testsome rreqs w) (types, p) =
      (types, Leaves-request_testsome env (tidy env memory types 0 []) rreqs w p)
  Sane-Step _ _ (Step.free self w unlisted) p = Sane-request_free 0 env self w unlisted p
  Sane-Step _ _ (Step.poll w) (types, p) =
      (types, Leaves-request_thread_round env (tidy env memory types 0 []) w p)
  Sane-Step _ _ (Step.elsewhere w w' heap rlist capacity) (types, p) =
      (types, elsewhere-Tidy types w w' heap rlist capacity p)

  pub Sane-Reached : (w₀ w : World) → w₀.heap ≡ [] → Reached env w₀ w → Sane 0 w
  Sane-Reached w₀ _ none_yet Reached.begun = Sane-init w₀ none_yet
  Sane-Reached w₀ _ none_yet (Reached.later {w} {w'} before step) =
      Sane-Step w w' step (Sane-Reached w₀ w none_yet before)
