-- ===== src/Op/Table.antt =====
-- mpi_op.c: `op_register` takes the first free slot, and fails on a full table only.
use mpi_ruby.Base.{
  ℕ, ◌+◌, ◌≤◌, ◌<◌, ◌≡◌, refl, pos, negsuc, true, false, List, [], ◌∷◌, some, length, take,
  get_elem?, set, if◌then◌else◌, ◌==◌, arith, ◌⊎◌, ◌↔◌, Bool-cases, inl, inr,
}
use mpi_ruby.Ruby.{Value, ok}
use mpi_ruby.State.{OpSlot, World}
use mpi_ruby.Op.{first_free, taken_by, op_register}

-- How many slots are assigned.
unfoldable pub count_assigned : List OpSlot → ℕ
count_assigned [] = 0
count_assigned (s ∷ rest) = (if s.assigned then 1 else 0) + count_assigned rest

pub count_assigned-le : (t : List OpSlot) → count_assigned t ≤ length t
unfolding count_assigned
count_assigned-le [] = omega arith
count_assigned-le (s ∷ t) = ground (arith, count_assigned-le t)

pub first_free-le : (t : List OpSlot) → first_free t ≤ length t
unfolding first_free
first_free-le [] = omega arith
first_free-le (s ∷ t) = ground (arith, first_free-le t)

-- The loop runs through the whole table exactly when every slot is assigned.
pub first_free-eq_length :
    (t : List OpSlot) → (first_free t ≡ length t) ↔ (count_assigned t ≡ length t)
unfolding first_free count_assigned
first_free-eq_length [] = (λ _. refl, λ _. refl)
first_free-eq_length (s ∷ t) = (
  λ h. ground (arith, first_free-eq_length t),
  λ h. ground (arith, first_free-eq_length t, count_assigned-le t),
)

pub first_free_unassigned :
    (t : List OpSlot)
    → first_free t < length t
    → (s : OpSlot) × (get_elem? t (first_free t) ≡ some s) × (s.assigned ≡ false)
unfolding first_free
first_free_unassigned [] h = absurd (omega arith)
first_free_unassigned (s ∷ t) h = elim (Bool-cases s.assigned) [
  | inl e ↦ simp e (first_free_unassigned t (ground arith))
  | inr e ↦ simp e (s, refl, e)
]

-- Every slot of the list is assigned.
abbrev pub AllAssigned : List OpSlot → Type 0
AllAssigned [] = Unit
AllAssigned (s ∷ rest) = (s.assigned ≡ true) × AllAssigned rest

AllAssigned-take-first_free : (t : List OpSlot) → AllAssigned (take (first_free t) t)
unfolding first_free
AllAssigned-take-first_free [] = tt
AllAssigned-take-first_free (s ∷ t) = elim (Bool-cases s.assigned) [
  | inl e ↦ simp e (refl, AllAssigned-take-first_free t)
  | inr e ↦ simp e tt
]

pub count_assigned-take :
    (t : List OpSlot) (proc : Value)
    → first_free t < length t
    → count_assigned (set t (first_free t) (taken_by proc)) ≡ count_assigned t + 1
unfolding first_free count_assigned
count_assigned-take [] proc h = absurd (omega arith)
count_assigned-take (s ∷ t) proc h = ground (arith, count_assigned-take t proc)

-- `op_register` fails, with -1 and the state unchanged, exactly when all slots are assigned.
-- Otherwise it returns the index of an unassigned slot below which all are assigned, writes that
-- slot alone (procedure, assigned, resize cleared), and one slot more is assigned.
pub op_register_lem :
    (proc : Value) (w : World)
    → let t = w.op_table in
      (count_assigned t ≡ length t) × (op_register proc w ≡ (ok (negsuc 0), w))
      ⊎ ((i : ℕ) × (op_register proc w ≡ (
        ok (pos i),
        record w { op_table = set t i (record { proc = proc; assigned = true; resize = pos 0 }) },
      ))
          × ((s : OpSlot) × (get_elem? t i ≡ some s) × (s.assigned ≡ false))
          × AllAssigned (take i t)
          × (count_assigned (set t i (record { proc = proc; assigned = true; resize = pos 0 }))
              ≡ count_assigned t + 1))
unfolding op_register
op_register_lem proc w = elim (Bool-cases (first_free w.op_table == length w.op_table)) [
  | inl e ↦ inl ((first_free-eq_length w.op_table).0 (ground arith), rw e)
  | inr e ↦
      (let h : first_free w.op_table < length w.op_table =
          ground (arith, first_free-le w.op_table) in
        inr (
          first_free w.op_table,
          rw e,
          first_free_unassigned w.op_table h,
          AllAssigned-take-first_free w.op_table,
          count_assigned-take w.op_table proc h,
        ))
]

-- The table after `op_create` and `op_free` of what it made: the slot is free again.
abbrev pub freed_by : Value → OpSlot
freed_by proc = record { proc = proc; assigned = false; resize = pos 0 }

pub count_assigned-free :
    (t : List OpSlot) (proc : Value)
    → first_free t < length t
    → count_assigned (set t (first_free t) (freed_by proc)) ≡ count_assigned t
unfolding first_free count_assigned
count_assigned-free [] proc h = absurd (omega arith)
count_assigned-free (s ∷ t) proc h = ground (arith, count_assigned-free t proc)

pub first_free-free :
    (t : List OpSlot) (proc : Value)
    → first_free t < length t
    → first_free (set t (first_free t) (freed_by proc)) ≡ first_free t
unfolding first_free
first_free-free [] proc h = absurd (omega arith)
first_free-free (s ∷ t) proc h = ground (arith, first_free-free t proc)
