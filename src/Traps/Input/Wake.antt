-- ===== src/Traps/Input/Wake.antt =====
-- Which tasks a character wakes.
use lsd_limine.Prelude.{
  ℕ, ◌≡◌, ◌==◌, ◌||◌, ◌&&◌, not, Bool, true, false, Option, some, List, [], ◌∷◌, refl, sym, ap, ◌∙◌,
  ok, Bool-cases, inl, inr, All, arith, unwrap, ◌>>=◌, ==→eq,
}
use lsd_limine.Traps.Task.{TaskData, char_in, breakpoint, no_wait, find_task, update_task}
use lsd_limine.Traps.Input.{Input, set_a0, wake, wake_all, uart_handler, is_char_in}

abbrev pub listed : ℕ → List ℕ → Bool
listed id [] = false
listed id (x ∷ xs) = (id == x) || listed id xs

-- A task that gets a character, if it waits for one.
abbrev pub served : ℕ → TaskData → TaskData
served input t = elim (t.waiting_on) [
  | no_wait ↦ t
  | char_in ↦ record t { trap_frame = set_a0 t.trap_frame input; waiting_on = no_wait }
  | breakpoint ↦ t
]

abbrev pub served_if : Bool → ℕ → TaskData → TaskData
served_if true input t = served input t
served_if false input t = t

-- Whether a task with the number is served, behind tasks with the numbers `before`.
abbrev pub turn : ℕ → List ℕ → List ℕ → Bool
turn id ids before = listed id ids && not (listed id before)

-- The tasks afterwards: a task is served if its number is listed and no task before it has that
-- number.
abbrev pub woken : ℕ → List ℕ → List ℕ → List TaskData → List TaskData
woken input ids before [] = []
woken input ids before (t ∷ ts) =
    served_if (turn t.task_id ids before) input t ∷ woken input ids (t.task_id ∷ before) ts

wake_lem : (input : ℕ) (t : TaskData) → wake input t ≡ served input t
unfolding wake is_char_in
wake_lem input t = ground arith

served_id : (input : ℕ) (t : TaskData) → (served input t).task_id ≡ t.task_id
served_id input t = ground arith

served_twice : (input : ℕ) (t : TaskData) → served input (served input t) ≡ served input t
served_twice input t = ground arith

served_if_id : (b : Bool) (input : ℕ) (t : TaskData) → (served_if b input t).task_id ≡ t.task_id
served_if_id true input t = served_id input t
served_if_id false input t = refl

served_if_twice :
    (input : ℕ) (hit ids new : Bool) (t : TaskData)
    → served_if (ids && new) input (served_if ((hit || false) && new) input t)
      ≡ served_if ((hit || ids) && new) input t
served_if_twice input true true true t = served_twice input t
served_if_twice input true true false t = refl
served_if_twice input true false true t = refl
served_if_twice input true false false t = refl
served_if_twice input false ids new t = refl

-- To wake one number and then others is to wake them all.
woken-then :
    (input id : ℕ) (ids before : List ℕ) (ts : List TaskData)
    → woken input ids before (woken input (id ∷ []) before ts) ≡ woken input (id ∷ ids) before ts
woken-then input id ids before [] = refl
woken-then input id ids before (t ∷ ts) =
    let u = served_if (turn t.task_id (id ∷ []) before) input t in
    let same : u.task_id ≡ t.task_id = served_if_id (turn t.task_id (id ∷ []) before) input t in
    ap
      (λ (n : ℕ).
        served_if (turn n ids before) input u
        ∷ woken input ids (n ∷ before) (woken input (id ∷ []) (t.task_id ∷ before) ts))
      same
    ∙ ap (λ (r : List TaskData). served_if (turn t.task_id ids before) input u ∷ r)
        (woken-then input id ids (t.task_id ∷ before) ts)
    ∙ ap (λ (x : TaskData). x ∷ woken input (id ∷ ids) (t.task_id ∷ before) ts)
        (served_if_twice input (t.task_id == id) (listed t.task_id ids)
          (not (listed t.task_id before)) t)

woken-none : (input : ℕ) (before : List ℕ) (ts : List TaskData) → woken input [] before ts ≡ ts
woken-none input before [] = refl
woken-none input before (t ∷ ts) =
    ap (λ (r : List TaskData). t ∷ r) (woken-none input (t.task_id ∷ before) ts)

no_turn : (n id : ℕ) (before : List ℕ) → listed id before ≡ true → turn n (id ∷ []) before ≡ false
no_turn n id before h = elim (Bool-cases (n == id)) [
  | inl e ↦ rw (==→eq n id e, h) (ground arith)
  | inr e ↦ rw e refl
]

-- Behind a task with the number, the others with that number stay.
woken-seen :
    (input id : ℕ) (before : List ℕ) (ts : List TaskData)
    → listed id before ≡ true
    → woken input (id ∷ []) before ts ≡ ts
woken-seen input id before [] h = refl
woken-seen input id before (t ∷ ts) h =
    ap (λ (b : Bool). served_if b input t ∷ woken input (id ∷ []) (t.task_id ∷ before) ts)
      (no_turn t.task_id id before h)
    ∙ ap (λ (r : List TaskData). t ∷ r) (woken-seen input id (t.task_id ∷ before) ts (ground arith))

update-woken :
    (input id : ℕ) (before : List ℕ) (ts : List TaskData) (t : TaskData)
    → find_task ts id ≡ some t
    → listed id before ≡ false
    → update_task ts id (wake input) ≡ some (woken input (id ∷ []) before ts)
unfolding find_task update_task
update-woken input id before [] t h new = cc
update-woken input id before (u ∷ ts) t h new = elim (Bool-cases (u.task_id == id)) [
  | inl here ↦
      let first : turn u.task_id (id ∷ []) before ≡ true =
        rw (==→eq u.task_id id here, new) (ground arith) in
      let later = woken-seen input id (u.task_id ∷ before) ts (ground arith) in
      let made : update_task (u ∷ ts) id (wake input) ≡ some (wake input u ∷ ts) = rw here refl in
      made
      ∙ ap (λ (v : TaskData). some (v ∷ ts)) (wake_lem input u)
      ∙ ap (λ (r : List TaskData). some (served input u ∷ r)) (sym later)
      ∙ ap
          (λ (b : Bool). some (served_if b input u ∷ woken input (id ∷ []) (u.task_id ∷ before) ts))
          (sym first)
  | inr other ↦
      let skip : turn u.task_id (id ∷ []) before ≡ false = rw other refl in
      let later = update-woken input id (u.task_id ∷ before) ts t (ground arith) (ground arith) in
      let made : update_task (u ∷ ts) id (wake input)
          ≡ some (u ∷ woken input (id ∷ []) (u.task_id ∷ before) ts) =
        rw (other, later) refl in
      made
      ∙ ap
          (λ (b : Bool). some (served_if b input u ∷ woken input (id ∷ []) (u.task_id ∷ before) ts))
          (sym skip)
]

-- Every number is that of some task.
abbrev pub Present : List TaskData → List ℕ → Type 0
Present ts ids = All (λ id. (t : TaskData) × (find_task ts id ≡ some t)) ids

find-woken :
    (input id i : ℕ) (before : List ℕ) (ts : List TaskData) (t : TaskData)
    → find_task ts i ≡ some t
    → (u : TaskData) × (find_task (woken input (id ∷ []) before ts) i ≡ some u)
unfolding find_task
find-woken input id i before [] t h = cc
find-woken input id i before (v ∷ ts) t h =
    let b = turn v.task_id (id ∷ []) before in
    let same : ((served_if b input v).task_id == i) ≡ (v.task_id == i) =
      ap (λ (n : ℕ). n == i) (served_if_id b input v) in
    elim (Bool-cases (v.task_id == i)) [
      | inl here ↦ (served_if b input v, rw (same, here) refl)
      | inr other ↦
          let (u, e) = find-woken input id i (v.task_id ∷ before) ts t (ground arith) in
          (u, rw (same, other) e)
    ]

Present-woken :
    (input id : ℕ) (ts : List TaskData) (ids : List ℕ)
    → Present ts ids
    → Present (woken input (id ∷ []) [] ts) ids
Present-woken input id ts [] p = tt
Present-woken input id ts (i ∷ ids) p =
    let (t, at) = p.0 in (find-woken input id i [] ts t at, Present-woken input id ts ids p.1)

wake_all-woken :
    (input : ℕ) (ids : List ℕ) (ts : List TaskData)
    → Present ts ids
    → wake_all input ids ts ≡ ok (woken input ids [] ts)
unfolding wake_all
wake_all-woken input [] ts p = ap ok (sym (woken-none input [] ts))
wake_all-woken input (id ∷ ids) ts p =
    let (t, at) = p.0 in
    let next = woken input (id ∷ []) [] ts in
    ap (λ (o : Option (List TaskData)). unwrap o >>= λ us. wake_all input ids us)
      (update-woken input id [] ts t at refl)
    ∙ wake_all-woken input ids next (Present-woken input id ts ids p.1)
    ∙ ap ok (woken-then input id ids [] ts)

-- Where each number in the waiting list is that of a task, `uart_handler` returns with an empty
-- list. A task whose number is in the list, and before which no task has that number, gets the
-- character in its first argument and waits no longer, if it waited for one. Every other task is
-- what it was, the order of the tasks too, and the current one stays current.
pub uart_handler-Woken :
    (input : ℕ) (s : Input)
    → Present s.tasks.queue s.await_list
    → uart_handler input s
      ≡ ok (record {
        tasks = record s.tasks { queue = woken input s.await_list [] s.tasks.queue };
        await_list = [];
      })
unfolding uart_handler
uart_handler-Woken input s p = rw (wake_all-woken input s.await_list s.tasks.queue p) refl
