-- ===== src/Comm/RingTests.antt =====
-- mpi_comm.c: `comm_allgather` among three processes, and `comm_bcast` between two.
use mpi_ruby.Base.{zero, ◌≡◌, refl, pos, List, [], ◌∷◌, arith}
use mpi_ruby.Ruby.{Value, Bytes, Outcome, ok, raised, other}
use mpi_ruby.Mpi.{Call, Code, Reply, Env}
use mpi_ruby.Samples.{calm, fine, env_of, start_world}
use mpi_ruby.Comm.{CommStruct, fresh_struct}
use mpi_ruby.Comm.Broadcast.{data_bcast, size_bcast, comm_bcast_lem}
use mpi_ruby.Comm.Collective.{comm_allgather, comm_bcast}
use mpi_ruby.Comm.Allgather.{allgather_relay_refused}

-- Rank 1 of 3; what arrives has three bytes and a NUL.
abbrev seats : List Call → Call → Reply
seats [] _ = record fine { out0 = pos 1 }
seats (_ ∷ _) _ = record fine { out0 = pos 3; bytes = 4 ∷ 8 ∷ 9 ∷ 0 ∷ [] }

seats_succeed : (log : List Call) (c : Call) → (seats log c).rv ≡ Code.success
seats_succeed [] c = refl
seats_succeed (_ ∷ _) c = refl

abbrev mc : CommStruct
mc = fresh_struct 91

abbrev middle : Env
middle = env_of seats

-- StringValueCStr of strings of up to four bytes.
abbrev without_nul : Bytes → Outcome Bytes
without_nul (_ ∷ _ ∷ _ ∷ zero ∷ _) = raised (other 3)
without_nul bs = ok bs

abbrev strict : Env
strict = record middle { string_value_cstr = without_nul }

allgather_relay_refused_example :
    (comm_allgather strict mc (pos 3) (Value.object 6) start_world).0 ≡ raised (other 3)
allgather_relay_refused_example =
    allgather_relay_refused strict mc (pos 3) (Value.object 6) (4 ∷ 8 ∷ 7 ∷ []) (4 ∷ 8 ∷ 7 ∷ []) 3 1
      (other 3) start_world seats_succeed refl refl refl refl refl (omega arith) refl

-- Process 0 broadcasts to process 3 with 2 in its variable: three bytes of the text arrive, and two
-- are loaded.
abbrev receiving : Env
receiving = env_of (λ _ _. record fine { out0 = pos 2; bytes = 4 ∷ 8 ∷ 7 ∷ [] })

comm_bcast_lem_example :
    (comm_bcast calm mc (pos 2) (Value.object 6) (Value.fixnum (pos 0)) start_world ≡ (
      ok (Value.object 6),
      record start_world {
        log =
            data_bcast mc (pos 0) (pos 2) (4 ∷ 8 ∷ 7 ∷ 0 ∷ [])
            ∷ size_bcast mc (pos 0) (pos 2)
            ∷ Call.comm_rank 91
            ∷ [];
      },
    ))
    × ((comm_bcast receiving mc (pos 66) Value.qnil (Value.fixnum (pos 0)) start_world).0
        ≡ raised (other 1))
comm_bcast_lem_example =
    comm_bcast_lem calm receiving mc mc 2 (pos 66) (pos 0) (pos 2) (Value.object 6) Value.qnil
      (Value.fixnum (pos 0)) (4 ∷ 8 ∷ 7 ∷ []) (4 ∷ 8 ∷ 7 ∷ []) start_world start_world (omega arith)
      (λ _ _. refl) refl refl refl refl (λ _ _. refl) refl refl refl refl refl
