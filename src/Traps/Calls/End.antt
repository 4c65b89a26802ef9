-- ===== src/Traps/Calls/End.antt =====
-- What the call that ends a program does.
use lsd_limine.Prelude.{
  get_elem?-lt, Option-cases, fault, eq→==, inl, inr, Bool-cases, ℕ, zero, suc, ◌≤◌, ◌<◌, ◌^◌, ◌≡◌,
  ◌≢◌, refl, ap, ◌∙◌, Bool, true, false, Option, none, some, List, [], ◌∷◌, ◌++◌, ◌||◌, ◌+◌, ◌==◌,
  arith, length, length-set, get_elem?, set, get_elem?-set_self, get_elem?-set_ne, Run, ok, panic,
  out_of_fuel, ◌>>=◌, Returns, Returns-bind, unwrap,
}
use mathlib.Core.List.{reverse, reverse-append}
use lsd_limine.Memory.Fields.{BitField}
use lsd_limine.Traps.Frame.{TrapFrame}
use lsd_limine.Traps.Task.{
  is_ready, TaskData, TaskQueue, Sstatus, current_task, set_current, update_current, advance,
  advance_task,
}
use lsd_limine.Traps.Task.Advance.{at_index, advance-IsFirst, ready_at, steps}
use lsd_limine.Traps.Calls.{
  Kernel, Outside, switched, forfeit, drop_locked, drop_all, enumerate, end_program,
}

-- Whether a task of the program is in a list.
abbrev in_list : ℕ → List TaskData → Bool
in_list id [] = false
in_list id (t ∷ ts) = (t.task_id == id) || in_list id ts

in_list-append :
    (id : ℕ) (ts us : List TaskData) → in_list id (ts ++ us) ≡ (in_list id ts || in_list id us)
in_list-append id [] us = refl
in_list-append id (t ∷ ts) us = ground (arith, in_list-append id ts us)

in_list-reverse : (id : ℕ) (ts : List TaskData) → in_list id (reverse ts) ≡ in_list id ts
in_list-reverse id [] = refl
in_list-reverse id (t ∷ ts) =
    ap (in_list id) (reverse-append (t ∷ []) ts)
    ∙ in_list-append id (reverse ts) (t ∷ [])
    ∙ ground (arith, in_list-reverse id ts)

in_list-get :
    (ts : List TaskData) (i : ℕ) (t : TaskData)
    → get_elem? ts i ≡ some t
    → in_list t.task_id ts ≡ true
in_list-get [] i t h = absurd (cc h)
in_list-get (u ∷ ts) zero t h =
    let e : u ≡ t = cc h in rw (eq→== u.task_id t.task_id (ap (λ (x : TaskData). x.task_id) e)) refl
in_list-get (u ∷ ts) (suc i) t h = ground (arith, in_list-get ts i t h)

-- With the guard alive, the loop waits for the lock at the first task of the program.
drop_all-waits :
    ⦃B : BitField⦄ (O : Outside) (hhdm levels fuel id i : ℕ) (ts : List TaskData)
    (s : TaskQueue × Sstatus)
    → O.write_lock true ≡ out_of_fuel
    → in_list id ts ≡ true
    → drop_all O hhdm levels fuel id (enumerate i ts) s ≡ out_of_fuel
unfolding drop_all drop_locked
drop_all-waits O hhdm levels fuel id i [] s held h = absurd (cc h)
drop_all-waits O hhdm levels fuel id i (t ∷ ts) s held h = elim (Bool-cases (t.task_id == id)) [
  | inl e ↦ rw (e, held) refl
  | inr e ↦ rw e (drop_all-waits O hhdm levels fuel id (i + 1) ts s held (ground arith))
]

ready_at-get :
    (ts us : List TaskData) (i : ℕ)
    → get_elem? us i ≡ get_elem? ts i
    → ready_at ts i ≡ true
    → ready_at us i ≡ true
ready_at-get ts us i h r =
    ap (λ (o : Option TaskData). elim o [ none ↦ false | some t ↦ is_ready t ]) h ∙ r

ready_at-some :
    (ts : List TaskData) (i : ℕ) → ready_at ts i ≡ true → (t : TaskData) × (get_elem? ts i ≡ some t)
ready_at-some ts i r = elim (Option-cases (get_elem? ts i)) [
  | inl n ↦
      absurd (cc (r, ap (λ (o : Option TaskData). elim o [ none ↦ false | some t ↦ is_ready t ]) n))
  | inr h ↦ h
]

hangs {ℓ κ} :
    {A : Type ℓ} {B : Type κ} (P : A → Type 0) (m : Run A) (f : A → Run B)
    → Returns P m
    → ((a : A) → P a → f a ≡ out_of_fuel)
    → (m >>= f) ≡ out_of_fuel
hangs P (ok a) f h k = k a h
hangs P panic f h k = elim h [ ]
hangs P fault f h k = elim h [ ]
hangs P out_of_fuel f h k = refl

module _ ⦃B : BitField⦄ (O : Outside) (hhdm levels fuel : ℕ) (frame : TrapFrame)
    (k : Kernel O.Arenas) (t : TaskData)
    (at : get_elem? k.tasks.queue k.tasks.cur_task_idx ≡ some t) where
  -- The current task with the frame of the trap.
  abbrev saved : TaskData
  saved = record t { trap_frame = frame }

  -- With another task ready, `advance_task` returns, and the current task is still there.
  advance_task-keeps :
      (st : Sstatus) (j : ℕ)
      → k.tasks.cur_task_idx ≢ j
      → ready_at k.tasks.queue j ≡ true
      → j < length k.tasks.queue
      → length k.tasks.queue < 2 ^ 64
      → length k.tasks.queue ≤ fuel
      → Returns
          (λ w. get_elem? w.tasks.queue k.tasks.cur_task_idx ≡ some saved)
          (advance_task fuel k.tasks st frame)
  unfolding advance_task update_current current_task set_current
  advance_task-keeps st j ne ready lj small enough =
      let idx = k.tasks.cur_task_idx in
      let q1 = set_current k.tasks saved in
      let lt = get_elem?-lt k.tasks.queue idx t at in
      let n = length-set k.tasks.queue idx saved in
      let now : get_elem? (set k.tasks.queue idx saved) idx ≡ some saved =
        get_elem?-set_self k.tasks.queue idx saved lt in
      let (d, hd, first, lands) =
        advance-IsFirst fuel q1 st j (omega (arith, n)) (omega (arith, n)) (omega (arith, n))
          (ready_at-get k.tasks.queue q1.queue j (get_elem?-set_ne k.tasks.queue idx j saved ne)
            ready)
          (omega (arith, n)) in
      let (t2, here) = ready_at-some q1.queue (steps (length q1.queue) (suc d) idx) first.ready in
      rw at (
        Returns-bind (λ (q', st'). q' ≡ at_index q1 (steps (length q1.queue) (suc d) idx))
          (λ w. get_elem? w.tasks.queue idx ≡ some saved) (advance fuel q1 st)
          (λ (q', st'). current_task q' >>= λ u.
            ok (record { tasks = q'; sstatus = st'; satp = u.task_table; frame = u.trap_frame }))
          lands
          (λ (q', st') e.
            let c : current_task q' ≡ ok t2 = ap current_task e ∙ ap unwrap here in
            rw c (ap (λ (q : TaskQueue). get_elem? q.queue idx) e ∙ now)))

  -- The call that ends a program does not return when another task is ready: at the first task of
  -- the program that it meets, it waits for the lock that it holds.
  pub end_program-hangs :
      (j : ℕ)
      → O.write_lock true ≡ out_of_fuel
      → k.tasks.cur_task_idx ≢ j
      → ready_at k.tasks.queue j ≡ true
      → j < length k.tasks.queue
      → length k.tasks.queue < 2 ^ 64
      → length k.tasks.queue ≤ fuel
      → O.write_lock false ≡ ok tt
      → end_program O hhdm levels fuel frame k ≡ out_of_fuel
  unfolding end_program forfeit switched current_task
  end_program-hangs j held ne ready lj small enough free =
      let idx = k.tasks.cur_task_idx in
      rw at (
        hangs (λ (f, k'). get_elem? k'.tasks.queue idx ≡ some saved) (forfeit fuel frame k)
          (λ (f, k'). do
            taken ← O.write_lock false
            (q, st) ←
                drop_all O hhdm levels fuel t.task_id (enumerate 0 (reverse k'.tasks.queue))
                  (k'.tasks, k'.sstatus)
            ok (f, record k' { tasks = q; sstatus = st }))
          (Returns-bind (λ w. get_elem? w.tasks.queue idx ≡ some saved)
            (λ (f, k'). get_elem? k'.tasks.queue idx ≡ some saved)
            (advance_task fuel k.tasks k.sstatus frame) (λ w. ok (switched k w))
            (advance_task-keeps k.sstatus j ne ready lj small enough) (λ w g. g))
          (λ (f, k') g.
            let there =
              in_list-reverse t.task_id k'.tasks.queue ∙ in_list-get k'.tasks.queue idx saved g in
            rw
              (
                free,
                drop_all-waits O hhdm levels fuel t.task_id 0 (reverse k'.tasks.queue)
                    (k'.tasks, k'.sstatus) held there,
              )
              refl))
