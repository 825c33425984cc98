-- ===== src/Request/Poll.antt =====
-- mpi_request.c: `request_thread`, which moves the receives on the list to their second stage.
use mpi_ruby.Base.{ℕ, zero, suc, ◌+◌, true, false, none, some, get_elem?, set}
use mpi_ruby.Ruby.{ok, fault, Fault, is_nonzero}
use mpi_ruby.Mpi.{Call, Env}
use mpi_ruby.Exception.{mpi_exception}
use mpi_ruby.State.{◌>>=◌, ◌>>◌, Entry, Stage, M, pure, lift, call, load, store}
use mpi_ruby.Request.Lifecycle.{with_size, post_data}

-- `rlist[i]`
abbrev pub entry_at : ℕ → M Entry
entry_at i w = elim (get_elem? w.rlist i) [
  | none ↦ (fault Fault.out_of_bounds, w)
  | some e ↦ (ok e, w)
]

-- The `if (flag)` block for the request at address `a`, found in cell `i`.
unfoldable pub poll_request : Env → ℕ → ℕ → M (Unit {0})
poll_request env i a = do
  mr ← load a
  r ← call env (Call.test mr.handle)
  let mr₁ = with_size r mr
  store a mr₁
  lift (mpi_exception r.rv)
  elim (is_nonzero r.out0) [
    | false ↦ pure tt
    | true ↦ do
      let mr₂ = record mr₁ { peer = r.status.source }
      store a mr₂
      mr₃ ← post_data env false a mr₂
      store a (record mr₃ { stage = Stage.tx_data })
      λ w. (ok tt, record w { rlist = set w.rlist i Entry.empty })
  ]

-- One cell of the inner loop.
unfoldable pub poll_cell : Env → ℕ → M (Unit {0})
poll_cell env i = do
  e ← entry_at i
  elim e [
    | Entry.empty ↦ pure tt
    | Entry.entry a ↦ poll_request env i a
    | Entry.unwritten ↦ lift (fault Fault.indeterminate)
  ]

-- The inner loop, over the `n` cells from `i` on.
unfoldable pub poll_from : Env → ℕ → ℕ → M (Unit {0})
poll_from env zero i = pure tt
poll_from env (suc n) i = do poll_cell env i; poll_from env n (i + 1)

-- One round of `while (1)`, up to `rb_thread_schedule`.
unfoldable pub request_thread_round : Env → M (Unit {0})
request_thread_round env w = poll_from env w.capacity 0 w
