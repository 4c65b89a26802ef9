-- ===== src/Traps/Task/Advance.antt =====
-- The round robin: `advance` stops at the first task, in cyclic order behind the current one, that
-- waits for nothing.
use native.Mathlib.Decide.{dec_lt}
use lsd_limine.Prelude.{
  if◌then◌else◌, none, some, ◌==◌, inl, inr, ℕ, zero, suc, ◌+◌, ◌<◌, ◌≤◌, ◌≡◌, List, arith, eq→==,
  Bool, ne→==, get_elem?, ◌∙◌, false, length, ◌-◌, true, ◌^◌, Bool-cases, Returns,
  get_elem?_in_range, Option-cases, ok, ap, Run, subst, out_of_fuel, sym, refl,
}
use lsd_limine.Traps.Task.{
  TaskData, TaskQueue, Sstatus, is_ready, next_index, advance_loop, current_task, advance,
}

-- The index that `d` steps round a queue of `n` tasks lead to.
abbrev pub step_round : ℕ → ℕ → ℕ
step_round n i = if i + 1 == n then 0 else i + 1

abbrev pub steps : ℕ → ℕ → ℕ → ℕ
steps n zero i = i
steps n (suc d) i = steps n d (step_round n i)

abbrev pub ready_at : List TaskData → ℕ → Bool
ready_at ts i = elim (get_elem? ts i) [ none ↦ false | some t ↦ is_ready t ]

-- Where `j` is met: at once before the wrap, or behind it.
steps_before : (n d i : ℕ) → i + d < n → steps n d i ≡ i + d
steps_before n zero i h = omega arith
steps_before n (suc d) i h =
    rw (ne→== (i + 1) n (omega arith)) (steps_before n d (i + 1) (omega arith) ∙ omega arith)

steps_wrap : (n d i : ℕ) → i < n → i + suc d ≡ n → steps n (suc d) i ≡ 0
steps_wrap n zero i h e = rw (eq→== (i + 1) n (omega arith))
steps_wrap n (suc d) i h e =
    rw (ne→== (i + 1) n (omega arith)) (steps_wrap n d (i + 1) (omega arith) (omega arith))

steps-add : (n d e i : ℕ) → steps n (d + e) i ≡ steps n e (steps n d i)
steps-add n zero e i = let z : 0 + e ≡ e = omega arith in rw z
steps-add n (suc d) e i =
    let z : suc d + e ≡ suc (d + e) = omega arith in rw z (steps-add n d e (step_round n i))

step_round-lt : (n i : ℕ) → i < n → step_round n i < n
step_round-lt n i h = ground arith

-- Every index is met within one round.
steps_reach : (n i j : ℕ) → i < n → j < n → (d : ℕ) × (d < n) × (steps n (suc d) i ≡ j)
steps_reach n i j hi hj = elim (dec_lt i j) [
  | yes before ↦
      let e : suc (j - i - 1) ≡ j - i = omega arith in
      (j - i - 1, omega arith, rw e (steps_before n (j - i) i (omega arith) ∙ omega arith))
  | no behind ↦
      let z : 0 + j ≡ j = omega arith in
      let e : suc (n - i - 1 + j) ≡ suc (n - i - 1) + j = omega arith in
      (
        n - i - 1 + j,
        omega arith,
        rw (e, steps-add n (suc (n - i - 1)) j i, steps_wrap n (n - i - 1) i hi (omega arith))
            (steps_before n j 0 (omega arith) ∙ z),
      )
]

-- The first of the next rounds at which a task is ready, or that there is none.
pub record IsFirst (ts : List TaskData) (i d : ℕ) : Type 0 where
  pub ready : ready_at ts (steps (length ts) (suc d) i) ≡ true
  pub not_before : (e : ℕ) → e < d → ready_at ts (steps (length ts) (suc e) i) ≡ false

later_rounds :
    (ts : List TaskData) (i c e : ℕ)
    → ready_at ts (step_round (length ts) i) ≡ false
    → IsFirst ts (step_round (length ts) i) c
    → e < suc c
    → ready_at ts (steps (length ts) (suc e) i) ≡ false
later_rounds ts i c zero now f lt = now
later_rounds ts i c (suc e) now f lt = f.not_before e (omega arith)

ready-IsFirst :
    (ts : List TaskData) (d i : ℕ)
    → ready_at ts (steps (length ts) (suc d) i) ≡ true
    → (c : ℕ) × (c ≤ d) × IsFirst ts i c
ready-IsFirst ts zero i h =
    (0, omega arith, record { ready = h; not_before = λ e lt. absurd (omega arith) })
ready-IsFirst ts (suc d) i h = elim (Bool-cases (ready_at ts (step_round (length ts) i))) [
  | inl now ↦ (0, omega arith, record { ready = now; not_before = λ e lt. absurd (omega arith) })
  | inr later ↦
      let (c, le, f) = ready-IsFirst ts d (step_round (length ts) i) h in
      (
        suc c,
        omega arith,
        record { ready = f.ready; not_before = λ e. later_rounds ts i c e later f },
      )
]

next_index-step_round :
    (q : TaskQueue)
    → q.cur_task_idx < length q.queue
    → length q.queue < 2 ^ 64
    → next_index q ≡ step_round (length q.queue) q.cur_task_idx
unfolding next_index
next_index-step_round q h small = ground arith

abbrev pub at_index : TaskQueue → ℕ → TaskQueue
at_index q i = record q { cur_task_idx = i }

module _ (q : TaskQueue) (fuel start : ℕ) (sie_set : Bool) (st : Sstatus) where
  loop_ready :
      ready_at q.queue (next_index q) ≡ true
      → advance_loop (suc fuel) start sie_set q st
        ≡ ok
            (at_index q (next_index q), if sie_set then record { sie = false; spp = false } else st)
  unfolding advance_loop current_task
  loop_ready h = elim (Option-cases (get_elem? q.queue (next_index q))) [
    | inl nothing ↦ absurd (ground arith)
    | inr (t, here) ↦ ground arith
  ]

  loop_wait :
      ready_at q.queue (next_index q) ≡ false
      → next_index q < length q.queue
      → (b : Bool) × (st' : Sstatus) × (advance_loop (suc fuel) start sie_set q st
          ≡ advance_loop fuel start b (at_index q (next_index q)) st')
  unfolding advance_loop current_task
  loop_wait h lt =
      let (t, here) = get_elem?_in_range q.queue (next_index q) lt in
      elim (Bool-cases (next_index q == start)) [
        | inl round ↦ (true, record { sie = true; spp = true }, ground arith)
        | inr on ↦ (sie_set, st, ground arith)
      ]

-- The loop ends in the first round that finds a ready task, and changes the index alone.
abbrev pub Lands : TaskQueue → ℕ → Run (TaskQueue × Sstatus) → Type 0
Lands q d = Returns λ (q', st'). q' ≡ at_index q (steps (length q.queue) (suc d) q.cur_task_idx)

loop_first :
    (d fuel start : ℕ) (sie_set : Bool) (q : TaskQueue) (st : Sstatus)
    → d < fuel
    → q.cur_task_idx < length q.queue
    → length q.queue < 2 ^ 64
    → IsFirst q.queue q.cur_task_idx d
    → Lands q d (advance_loop fuel start sie_set q st)
loop_first d zero start sie_set q st h lt small f = absurd (omega arith)
loop_first zero (suc fuel) start sie_set q st h lt small f =
    let e = next_index-step_round q lt small in
    rw (loop_ready q fuel start sie_set st (rw e f.ready)) (ap (at_index q) e)
loop_first (suc d) (suc fuel) start sie_set q st h lt small f =
    let e = next_index-step_round q lt small in
    let i = step_round (length q.queue) q.cur_task_idx in
    let lt' = step_round-lt (length q.queue) q.cur_task_idx lt in
    let (b, st', go) =
      loop_wait q fuel start sie_set st (rw e (f.not_before 0 (omega arith))) (rw e lt') in
    rw go (
      subst (λ j. Lands (at_index q i) d (advance_loop fuel start b (at_index q j) st')) (sym e)
        (loop_first d fuel start b (at_index q i) st' (omega arith) lt' small
          (record { ready = f.ready; not_before = λ k lt. f.not_before (suc k) (omega arith) })))

-- If some task is ready, as many rounds as there are tasks are enough for `advance` to return.
-- It changes no task, and the new index is that of the first ready task in cyclic order behind the
-- current one.
pub advance-IsFirst :
    (fuel : ℕ) (q : TaskQueue) (st : Sstatus) (j : ℕ)
    → q.cur_task_idx < length q.queue
    → length q.queue < 2 ^ 64
    → j < length q.queue
    → ready_at q.queue j ≡ true
    → length q.queue ≤ fuel
    → (d : ℕ) × (d < length q.queue)
      × IsFirst q.queue q.cur_task_idx d
      × Lands q d (advance fuel q st)
unfolding advance
advance-IsFirst fuel q st j lt small hj ready enough =
    let (d, hd, e) = steps_reach (length q.queue) q.cur_task_idx j lt hj in
    let (c, le, f) = ready-IsFirst q.queue d q.cur_task_idx (rw e ready) in
    (c, omega arith, f, loop_first c fuel q.cur_task_idx false q st (omega arith) lt small f)

loop_spins :
    (fuel start : ℕ) (sie_set : Bool) (q : TaskQueue) (st : Sstatus)
    → q.cur_task_idx < length q.queue
    → length q.queue < 2 ^ 64
    → ((j : ℕ) → j < length q.queue → ready_at q.queue j ≡ false)
    → advance_loop fuel start sie_set q st ≡ out_of_fuel
unfolding advance_loop
loop_spins zero start sie_set q st lt small idle = refl
loop_spins (suc fuel) start sie_set q st lt small idle =
    let e = next_index-step_round q lt small in
    let lt' : next_index q < length q.queue =
      rw e (step_round-lt (length q.queue) q.cur_task_idx lt) in
    let (b, st', go) = loop_wait q fuel start sie_set st (idle (next_index q) lt') lt' in
    go ∙ loop_spins fuel start b (at_index q (next_index q)) st' lt' small idle

-- If every task waits, `advance` does not return, however many rounds it is given.
pub advance-spins :
    (fuel : ℕ) (q : TaskQueue) (st : Sstatus)
    → q.cur_task_idx < length q.queue
    → length q.queue < 2 ^ 64
    → ((j : ℕ) → j < length q.queue → ready_at q.queue j ≡ false)
    → advance fuel q st ≡ out_of_fuel
unfolding advance
advance-spins fuel q st lt small idle = loop_spins fuel q.cur_task_idx false q st lt small idle
