-- ===== src/Kernel/Os/Switch.antt =====
-- `sched` of software/kernel/proc.c: what a switch saves and loads, and how many ticks a turn has.
use mathlib.Core.Option
use native.Mathlib.Decide.{ℕ_discrete, dec_lt}
use cpu.Prelude.{
  ℕ, ◌+◌, ◌-◌, ◌%◌, ◌<◌, ◌≡◌, ◌⊎◌, ◌≤◌, ◌∙◌, zero, suc, inl, inr, none, Option, refl, arith, true,
  some, ◌&&◌, not, u8, ltb, ◌==◌, if◌then◌else◌,
}
use cpu.Kernel.Mmu.{write_tlb_index}
use cpu.Kernel.Frame.{save_isr_ctx, load_isr_ctx}
use cpu.Kernel.Os.{Os, ticks_to_switch, next_run, save_current, switch_to, sched, force_sched}
use cpu.Kernel.Os.Turn.{CanRun, NoneRuns, base, next_run_lem}

-- Ticks before the last of a turn only count down.
pub sched_waits :
    (fuel : ℕ) (o : Os)
    → o.do_switch ≡ true
    → 1 < o.ticks_to_next_switch
    → o.ticks_to_next_switch < 256
    → sched fuel o ≡ some (record o { ticks_to_next_switch = o.ticks_to_next_switch - 1 })
unfolding sched
sched_waits fuel o on more small =
    let e : u8 (o.ticks_to_next_switch + 255) ≡ o.ticks_to_next_switch - 1 = omega arith in
    let pos : ltb 0 (o.ticks_to_next_switch - 1) ≡ true = ground arith in rw (on, e, pos)

saved : Os → Os
saved o = save_current (record o { ticks_to_next_switch = ticks_to_switch })

status-saved : (o : Os) (i : ℕ) → ((saved o).p_list i).status ≡ (o.p_list i).status
unfolding saved save_current
status-saved o i = ground arith

tlb_index-saved : (o : Os) (i : ℕ) → ((saved o).p_list i).tlb_index ≡ (o.p_list i).tlb_index
unfolding saved save_current
tlb_index-saved o i = ground arith

ctx-saved :
    (o : Os) (i : ℕ)
    → ((saved o).p_list i).ctx ≡ (
        if (i == o.current_proc_idx) && not (o.current_proc_idx == 0xff)
        then save_isr_ctx o.memory
        else (o.p_list i).ctx)
unfolding saved save_current
ctx-saved o i = ground arith

sched_last_tick :
    (o : Os)
    → o.do_switch ≡ true
    → o.ticks_to_next_switch ≡ 1
    → sched 6 o
      ≡ Option.map (λ i. switch_to i (saved o)) (next_run 6 (saved o).p_list o.current_proc_idx)
unfolding sched saved
sched_last_tick o on last = rw (on, last)

-- What a switch to the slot `i` leaves, whichever process ran before.
abbrev pub Switched : Os → ℕ → Os → Type 0
Switched o i o' =
    (o'.current_proc_idx ≡ i)
    × (o'.ticks_to_next_switch ≡ 8)
    × (o'.memory ≡ load_isr_ctx (o'.p_list i).ctx o.memory)
    × (o'.mmu ≡ record (o.mmu) { tlb_index = (o.p_list i).tlb_index })
    × ((j : ℕ)
        → (o'.p_list j).ctx ≡ (
            if (j == o.current_proc_idx) && not (o.current_proc_idx == 0xff)
            then save_isr_ctx o.memory
            else (o.p_list j).ctx))

switch_to-Switched : (o : Os) (i : ℕ) → Switched o i (switch_to i (saved o))
unfolding switch_to saved save_current write_tlb_index
switch_to-Switched o i = (refl, ground arith, ground arith, ground arith, λ j. ground arith)

-- At the last tick of a turn, where some process can run, `sched` begins a new turn of 8 ticks,
-- saves the frame in the context of the process that ran (unless the kernel itself did), and makes
-- the first process after it that can run the current one: its context goes into the frame, its
-- TLB index into the memory unit. No other context changes.
pub sched_switches :
    (o : Os) (j : ℕ)
    → o.do_switch ≡ true
    → o.ticks_to_next_switch ≡ 1
    → (o.current_proc_idx < 6) ⊎ (o.current_proc_idx ≡ 0xff)
    → j < 6
    → CanRun o.p_list j
    → let cur = o.current_proc_idx in
      (k : ℕ) × (o' : Os) × (sched 6 o ≡ some o')
      × (k < 6)
      × CanRun o.p_list ((base cur + k) % 6)
      × NoneRuns o.p_list (base cur) k
      × Switched o ((base cur + k) % 6) o'
sched_switches o j on last h lt run =
    let s = saved o in
    let (k, small, found, runs, before) =
      next_run_lem s.p_list o.current_proc_idx j h lt (rw (status-saved o j) run) in
    let i = (base o.current_proc_idx + k) % 6 in
    (
      k,
      switch_to i s,
      rw (sched_last_tick o on last, found) refl,
      small,
      rw (status-saved o i) at runs,
      λ m p r. before m p (rw (status-saved o ((base o.current_proc_idx + m) % 6)) r),
      switch_to-Switched o i,
    )

-- One switch after the other, each forced before the ticks of its turn are over.
unfoldable pub switches : ℕ → Os → Option Os
switches zero o = some o
switches (suc n) o = elim (force_sched 6 o) [ none ↦ none | some o' ↦ switches n o' ]

-- How many slots behind the start of the search the slot `j` comes.
abbrev pub ahead : ℕ → ℕ → ℕ
ahead cur j = (j + 12 - base cur) % 6

ahead_step :
    (cur j k : ℕ)
    → (cur < 6) ⊎ (cur ≡ 0xff)
    → j < 6
    → k ≤ ahead cur j
    → ((base cur + k) % 6 ≡ j) ⊎ (ahead ((base cur + k) % 6) j < ahead cur j)
ahead_step cur j k h hj late = elim (ℕ_discrete k (ahead cur j)) [
  | yes same ↦ inl (ground arith)
  | no below ↦ inr (ground arith)
]

forced : Os → Os
forced o = saved (record o { ticks_to_next_switch = 1 })

-- A forced switch goes to a process that can run, to `j` or nearer to it.
force_sched-nearer :
    (o : Os) (j : ℕ)
    → o.do_switch ≡ true
    → (o.current_proc_idx < 6) ⊎ (o.current_proc_idx ≡ 0xff)
    → j < 6
    → CanRun o.p_list j
    → (i : ℕ) × (i < 6)
      × (force_sched 6 o ≡ some (switch_to i (forced o)))
      × ((i ≡ j) ⊎ (ahead i j < ahead o.current_proc_idx j))
unfolding force_sched forced
force_sched-nearer o j on h lt run =
    let o₁ = record o { ticks_to_next_switch = 1 } in
    let s = saved o₁ in
    let cur = o.current_proc_idx in
    let can : CanRun s.p_list j = rw (status-saved o₁ j) run in
    let (k, small, found, runs, before) = next_run_lem s.p_list cur j h lt can in
    let there : (base cur + ahead cur j) % 6 ≡ j = ground arith in
    let late : k ≤ ahead cur j = elim (dec_lt (ahead cur j) k) [
      | yes early ↦ absurd (before (ahead cur j) early (rw there can))
      | no late ↦ omega arith
    ] in
    (
      (base cur + k) % 6,
      omega arith,
      rw (sched_last_tick o₁ on refl, found) refl,
      ahead_step cur j k h lt late,
    )

forced-kept :
    (o : Os) (i j : ℕ)
    → ((switch_to i (forced o)).do_switch ≡ o.do_switch)
      × (((switch_to i (forced o)).p_list j).status ≡ (o.p_list j).status)
unfolding forced switch_to saved save_current
forced-kept o i j = (ground arith, ground arith)

switches-reach :
    (n j : ℕ) (o : Os)
    → o.do_switch ≡ true
    → (o.current_proc_idx < 6) ⊎ (o.current_proc_idx ≡ 0xff)
    → j < 6
    → CanRun o.p_list j
    → ahead o.current_proc_idx j ≤ n
    → (k : ℕ) × (o' : Os) × (0 < k)
      × (k ≤ n + 1)
      × (switches k o ≡ some o')
      × (o'.current_proc_idx ≡ j)
unfolding switches switch_to
switches-reach zero j o on h lt run near =
    let (i, small, ran, next) = force_sched-nearer o j on h lt run in
    elim next [
      | inl at ↦ (1, switch_to i (forced o), omega arith, omega arith, rw (ran, switches) refl, at)
      | inr nearer ↦ absurd (omega arith)
    ]
switches-reach (suc n) j o on h lt run near =
    let (i, small, ran, next) = force_sched-nearer o j on h lt run in
    let o₁ = switch_to i (forced o) in
    elim next [
      | inl at ↦ (1, o₁, omega arith, omega arith, rw (ran, switches) refl, at)
      | inr nearer ↦
          let kept = forced-kept o i j in
          let (k, o', some_k, few, on_k, at) =
            switches-reach n j o₁ (kept.0 ∙ on) (inl small) lt (kept.1 ∙ run) (omega arith) in
          (suc k, o', omega arith, omega arith, rw (ran, switches) on_k, at)
    ]

-- No process starves: from any state in which the scheduler is on and the process of slot `j` can run,
-- after at most six switches, and at least one, it is the current one.
pub switches-ends :
    (j : ℕ) (o : Os)
    → o.do_switch ≡ true
    → (o.current_proc_idx < 6) ⊎ (o.current_proc_idx ≡ 0xff)
    → j < 6
    → CanRun o.p_list j
    → (k : ℕ) × (o' : Os) × (0 < k) × (k ≤ 6) × (switches k o ≡ some o') × (o'.current_proc_idx ≡ j)
switches-ends j o on h lt run = switches-reach 5 j o on h lt run (omega arith)
