-- ===== src/Kernel/Os/Slots.antt =====
-- software/kernel/proc.c: the searches for a free slot of the process list and for a new pid.
use cpu.Prelude.{
  ℕ, zero, suc, ◌+◌, ◌≤◌, ◌<◌, ◌≡◌, ◌≢◌, ◌⊎◌, inl, inr, refl, arith, Bool, true, false, Option,
  some, u8, ◌==◌, if◌then◌else◌, Bool-cases,
}
use native.Mathlib.Decide.{ℕ_discrete}
use cpu.Kernel.Os.{
  Process, n_proc, process_none, free_slot, find_free_proc, pid_taken, new_pid, get_new_pid,
}

abbrev pub IsLive : (ℕ → Process) → ℕ → Type 0
IsLive ps i = (ps i).status ≢ process_none

abbrev AllLive : (ℕ → Process) → ℕ → ℕ → Type 0
AllLive ps lo hi = (j : ℕ) → lo ≤ j → j < hi → IsLive ps j

AllLive-cons :
    (ps : ℕ → Process) {lo hi : ℕ} → IsLive ps lo → AllLive ps (lo + 1) hi → AllLive ps lo hi
AllLive-cons ps h rest j p q = grind (arith, rest j)

free_slot_lem :
    (ps : ℕ → Process) (i left hi : ℕ)
    → i + left ≡ hi
    → hi < 0xff
    → let r = free_slot ps i left in
      ((i ≤ r) × (r < hi) × ((ps r).status ≡ process_none) × AllLive ps i r)
      ⊎ ((r ≡ 0xff) × AllLive ps i hi)
unfolding free_slot
free_slot_lem ps i zero hi e h = inr (refl, λ j p q. absurd (omega arith))
free_slot_lem ps i (suc left) hi e h = elim (Bool-cases ((ps i).status == process_none)) [
  | inl free ↦ rw free (inl (omega arith, omega arith, ground arith, λ j p q. absurd (omega arith)))
  | inr live ↦ rw live (elim (free_slot_lem ps (i + 1) left hi (omega arith) h) [
    | inl (a, b, c, d) ↦ inl (omega arith, b, c, AllLive-cons ps (ground arith) d)
    | inr (a, d) ↦ inr (a, AllLive-cons ps (ground arith) d)
  ])
]

-- `find_free_proc` returns the first free slot of the six, and 0xff exactly when all are taken.
pub find_free_proc_lem :
    (ps : ℕ → Process)
    → let r = find_free_proc ps in
      ((r < 6) × ((ps r).status ≡ process_none) × ((j : ℕ) → j < r → IsLive ps j))
      ⊎ ((r ≡ 0xff) × ((j : ℕ) → j < 6 → IsLive ps j))
unfolding find_free_proc
find_free_proc_lem ps = elim (free_slot_lem ps 0 n_proc 6 (omega arith) (omega arith)) [
  | inl (a, b, c, d) ↦ inl (b, c, λ j h. d j (omega arith) h)
  | inr (a, d) ↦ inr (a, λ j h. d j (omega arith) h)
]

abbrev bit : Bool → ℕ
bit b = if b then 1 else 0

-- How many pids of the `k` from `lo` on are taken by the processes `i` to `i + n - 1`.
taken : (ℕ → Process) → ℕ → ℕ → ℕ → ℕ → ℕ
taken ps i n lo zero = 0
taken ps i n lo (suc k) = bit (pid_taken ps (lo + k) i n) + taken ps i n lo k

taken_none : (ps : ℕ → Process) (i lo k : ℕ) → taken ps i 0 lo k ≡ 0
unfolding taken pid_taken
taken_none ps i lo zero = refl
taken_none ps i lo (suc k) = omega (arith, taken_none ps i lo k)

-- One process takes at most one pid.
taken-suc :
    (ps : ℕ → Process) (i n lo k : ℕ)
    → let p = (ps i).pid in
      (taken ps i (suc n) lo k ≤ taken ps (i + 1) n lo k + 1)
      × ((p < lo) ⊎ (lo + k ≤ p) → taken ps i (suc n) lo k ≤ taken ps (i + 1) n lo k)
unfolding taken pid_taken
taken-suc ps i n lo zero = (omega arith, λ h. omega arith)
taken-suc ps i n lo (suc k) =
    let ih = taken-suc ps i n lo k in (ground (arith, ih.0, ih.1), λ h. ground (arith, ih.0, ih.1))

taken-le : (ps : ℕ → Process) (i n lo k : ℕ) → taken ps i n lo k ≤ n
taken-le ps i zero lo k = omega (arith, taken_none ps i lo k)
taken-le ps i (suc n) lo k = omega (arith, (taken-suc ps i n lo k).0, taken-le ps (i + 1) n lo k)

-- Where every pid from `lo` on is taken, they are counted.
abbrev AllTaken : (ℕ → Process) → ℕ → ℕ → Type 0
AllTaken ps lo k = (j : ℕ) → j < k → pid_taken ps (lo + j) 0 n_proc ≡ true

taken_all : (ps : ℕ → Process) (lo k : ℕ) → AllTaken ps lo k → taken ps 0 n_proc lo k ≡ k
unfolding taken
taken_all ps lo zero h = refl
taken_all ps lo (suc k) h =
    rw (h k (omega arith)) (omega (arith, taken_all ps lo k (λ j p. h j (omega arith))))

-- The search from `lo` returns the first pid that is not taken, unless all within the fuel are.
abbrev Found : (ℕ → Process) → ℕ → ℕ → Option ℕ → Type 0
Found ps lo fuel o =
    ((k : ℕ) × (k < fuel)
      × (o ≡ some (lo + k))
      × (pid_taken ps (lo + k) 0 n_proc ≡ false)
      × AllTaken ps lo k)
    ⊎ AllTaken ps lo fuel

AllTaken-cons :
    (ps : ℕ → Process) (lo k : ℕ)
    → pid_taken ps lo 0 n_proc ≡ true
    → AllTaken ps (lo + 1) k
    → AllTaken ps lo (suc k)
AllTaken-cons ps lo k h rest zero p = let e : lo + 0 ≡ lo = omega arith in rw e h
AllTaken-cons ps lo k h rest (suc j) p =
    let e : lo + suc j ≡ lo + 1 + j = omega arith in rw e (rest j (omega arith))

Found-cons :
    (ps : ℕ → Process) (lo fuel : ℕ) (o : Option ℕ)
    → pid_taken ps lo 0 n_proc ≡ true
    → Found ps (lo + 1) fuel o
    → Found ps lo (suc fuel) o
Found-cons ps lo fuel o hit (inl (k, lt, e, free, all)) =
    let shift : lo + suc k ≡ lo + 1 + k = omega arith in
    inl (suc k, omega arith, rw shift e, rw shift free, AllTaken-cons ps lo k hit all)
Found-cons ps lo fuel o hit (inr all) = inr (AllTaken-cons ps lo fuel hit all)

new_pid-Found :
    (fuel : ℕ) (ps : ℕ → Process) (lo : ℕ) → lo + fuel < 256 → Found ps lo fuel (new_pid fuel ps lo)
unfolding new_pid
new_pid-Found zero ps lo h = inr (λ j p. absurd (omega arith))
new_pid-Found (suc fuel) ps lo h = elim (Bool-cases (pid_taken ps lo 0 n_proc)) [
  | inl hit ↦
      let e : u8 (lo + 1) ≡ lo + 1 = omega arith in
      rw (hit, e) (Found-cons ps lo fuel _ hit (new_pid-Found fuel ps (lo + 1) (omega arith)))
  | inr miss ↦
      let e : lo + 0 ≡ lo = omega arith in
      inl (0, omega arith, rw (miss, e), rw e miss, λ j p. absurd (omega arith))
]

pid_taken-false :
    (ps : ℕ → Process) (pid i left j : ℕ)
    → pid_taken ps pid i left ≡ false
    → i ≤ j
    → j < i + left
    → IsLive ps j
    → (ps j).pid ≢ pid
unfolding pid_taken
pid_taken-false ps pid i zero j h p q live e = absurd (omega arith)
pid_taken-false ps pid i (suc left) j h p q live e = elim (ℕ_discrete i j) [
  | yes here ↦ ground arith
  | no there ↦
      pid_taken-false ps pid (i + 1) left j (ground arith) (omega arith) (omega arith) live e
]

-- `get_new_pid` returns within seven rounds a pid from 1 to 7 that no live process has, the least
-- such.
pub get_new_pid_lem :
    (ps : ℕ → Process)
    → (pid : ℕ) × (get_new_pid 7 ps ≡ some pid)
      × (1 ≤ pid)
      × (pid ≤ 7)
      × ((i : ℕ) → i < 6 → IsLive ps i → (ps i).pid ≢ pid)
unfolding get_new_pid
get_new_pid_lem ps = elim (new_pid-Found 7 ps 1 (omega arith)) [
  | inl (k, lt, e, free, all) ↦ (
    1 + k,
    e,
    omega arith,
    omega arith,
    λ i h live. pid_taken-false ps (1 + k) 0 n_proc i free (omega arith) h live,
  )
  | inr all ↦ absurd (omega (arith, taken_all ps 1 7 all, taken-le ps 0 n_proc 1 7))
]
