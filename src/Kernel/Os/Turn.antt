-- ===== src/Kernel/Os/Turn.antt =====
-- The search of `sched` in software/kernel/proc.c for the process that runs next: it is the first
-- after the current one that can run.
use cpu.Prelude.{
  ℕ, zero, suc, ◌+◌, ◌-◌, ◌%◌, ◌<◌, ◌≡◌, ◌⊎◌, inl, inr, refl, arith, Option, none, some, u8, leb,
  ◌==◌, if◌then◌else◌, Bool-cases,
}
use cpu.Kernel.Os.{Process, n_proc, process_run, next_run}

abbrev pub CanRun : (ℕ → Process) → ℕ → Type 0
CanRun ps i = (ps i).status ≡ process_run

-- The search from the slot `m` on, without the wrap-around of the index.
first_run : ℕ → (ℕ → Process) → ℕ → Option ℕ
first_run zero ps m = none
first_run (suc fuel) ps m =
    let rest = first_run fuel ps (m + 1) in
    if (ps (m % 6)).status == process_run then some (m % 6) else rest

next_run-first_run :
    (fuel : ℕ) (ps : ℕ → Process) (cur m : ℕ)
    → (if leb n_proc (u8 (cur + 1)) then 0 else u8 (cur + 1)) ≡ m % 6
    → next_run fuel ps cur ≡ first_run fuel ps m
unfolding next_run first_run
next_run-first_run zero ps cur m e = refl
next_run-first_run (suc fuel) ps cur m e =
    rw (e, next_run-first_run fuel ps (m % 6) (m + 1) (ground arith))

abbrev pub NoneRuns : (ℕ → Process) → ℕ → ℕ → Type 0
NoneRuns ps m k = (j : ℕ) → j < k → ¬ CanRun ps ((m + j) % 6)

NoneRuns-cons :
    (ps : ℕ → Process) (m k : ℕ)
    → ¬ CanRun ps (m % 6)
    → NoneRuns ps (m + 1) k
    → NoneRuns ps m (suc k)
NoneRuns-cons ps m k h rest zero p = let e : m + 0 ≡ m = omega arith in rw e h
NoneRuns-cons ps m k h rest (suc j) p =
    let e : m + suc j ≡ m + 1 + j = omega arith in rw e (rest j (omega arith))

abbrev Search : (ℕ → Process) → ℕ → ℕ → Option ℕ → Type 0
Search ps m fuel o =
    ((k : ℕ) × (k < fuel) × (o ≡ some ((m + k) % 6)) × CanRun ps ((m + k) % 6) × NoneRuns ps m k)
    ⊎ ((o ≡ none) × NoneRuns ps m fuel)

Search-cons :
    (ps : ℕ → Process) (m fuel : ℕ) (o : Option ℕ)
    → ¬ CanRun ps (m % 6)
    → Search ps (m + 1) fuel o
    → Search ps m (suc fuel) o
Search-cons ps m fuel o h (inl (k, lt, e, run, before)) =
    let shift : m + suc k ≡ m + 1 + k = omega arith in
    inl (suc k, omega arith, rw shift e, rw shift run, NoneRuns-cons ps m k h before)
Search-cons ps m fuel o h (inr (e, all)) = inr (e, NoneRuns-cons ps m fuel h all)

first_run-Search : (fuel : ℕ) (ps : ℕ → Process) (m : ℕ) → Search ps m fuel (first_run fuel ps m)
unfolding first_run
first_run-Search zero ps m = inr (refl, λ j p. absurd (omega arith))
first_run-Search (suc fuel) ps m = elim (Bool-cases ((ps (m % 6)).status == process_run)) [
  | inl hit ↦
      let e : m + 0 ≡ m = omega arith in
      inl (0, omega arith, rw (hit, e), rw e (ground arith), λ j p. absurd (omega arith))
  | inr miss ↦ rw miss (Search-cons ps m fuel _ (ground arith) (first_run-Search fuel ps (m + 1)))
]

-- Where the search after `cur` begins; 0xff stands for the kernel itself.
abbrev pub base : ℕ → ℕ
base cur = if cur == 0xff then 0 else cur + 1

next_run-Search :
    (fuel : ℕ) (ps : ℕ → Process) (cur : ℕ)
    → (cur < 6) ⊎ (cur ≡ 0xff)
    → Search ps (base cur) fuel (next_run fuel ps cur)
next_run-Search fuel ps cur h =
    rw (next_run-first_run fuel ps cur (base cur) (ground arith))
      (first_run-Search fuel ps (base cur))

-- The next process is the first one after `cur`, going round, that can run; six rounds of the
-- search find it where there is one.
pub next_run_lem :
    (ps : ℕ → Process) (cur j : ℕ)
    → (cur < 6) ⊎ (cur ≡ 0xff)
    → j < 6
    → CanRun ps j
    → (k : ℕ) × (k < 6)
      × (next_run 6 ps cur ≡ some ((base cur + k) % 6))
      × CanRun ps ((base cur + k) % 6)
      × NoneRuns ps (base cur) k
next_run_lem ps cur j h lt run = elim (next_run-Search 6 ps cur h) [
  | inl found ↦ found
  | inr (e, all) ↦
      let back : (base cur + (j + 12 - base cur) % 6) % 6 ≡ j = ground arith in
      absurd (all ((j + 12 - base cur) % 6) (omega arith) (rw back run))
]

-- With no process that can run the search never ends.
pub next_run-none :
    (ps : ℕ → Process) (cur fuel : ℕ)
    → (cur < 6) ⊎ (cur ≡ 0xff)
    → ((j : ℕ) → j < 6 → ¬ CanRun ps j)
    → next_run fuel ps cur ≡ none
next_run-none ps cur fuel h idle = elim (next_run-Search fuel ps cur h) [
  | inl (k, lt, e, run, before) ↦ absurd (idle ((base cur + k) % 6) (omega arith) run)
  | inr (e, all) ↦ e
]
