-- ===== src/Traps/Task.antt =====
-- LSD/src/traps/task.rs: user tasks, their queue, and the round robin over it. `sstatus` is the part
-- of the register of that name that `advance` writes. `thread_manager` and `vmm`, references to
-- allocators of another crate, are kept as the names of those.
pub mod Advance
pub mod Drop
mod Tests
use lsd_limine.Prelude.{
  ℕ, zero, suc, Bool, true, false, Option, none, some, List, [], ◌∷◌, ◌++◌, ◌==◌, if◌then◌else◌,
  length, get_elem?, set, Run, ok, panic, out_of_fuel, ◌>>=◌, unwrap, add64, sub64, ◌-◌,
}
use lsd_limine.Traps.Frame.{TrapFrame}

pub data Privilege : Type 0 where
  root super_user user guest : Privilege

pub data WaitSrc : Type 0 where
  no_wait char_in breakpoint : WaitSrc

pub record TaskData : Type 0 where
  pub trap_frame : TrapFrame
  pub task_id : ℕ
  pub task_table : ℕ
  pub privilege : Privilege
  pub waiting_on : WaitSrc
  pub thread_id : ℕ
  pub thread_manager : ℕ
  pub vmm : ℕ

pub record TaskQueue : Type 0 where
  pub queue : List TaskData
  pub cur_task_idx : ℕ

pub record Sstatus : Type 0 where
  pub sie : Bool
  pub spp : Bool

abbrev pub new : TaskQueue
new = record { queue = []; cur_task_idx = 0 }

-- `waiting_on == WaitSrc::None`.
unfoldable pub is_ready : TaskData → Bool
is_ready t = elim (t.waiting_on) [ no_wait ↦ true | char_in ↦ false | breakpoint ↦ false ]

-- Indexing past the end panics.
unfoldable pub current_task : TaskQueue → Run TaskData
current_task q = unwrap (get_elem? q.queue q.cur_task_idx)

-- `*self.current_task_mut() = t`.
unfoldable pub set_current : TaskQueue → TaskData → TaskQueue
set_current q t = record q { queue = set q.queue q.cur_task_idx t }

unfoldable pub next_index : TaskQueue → ℕ
next_index q = let i = add64 q.cur_task_idx 1 in if i == length q.queue then 0 else i

-- The loop of `advance`, with fuel.
unfoldable pub advance_loop : ℕ → ℕ → Bool → TaskQueue → Sstatus → Run (TaskQueue × Sstatus)
advance_loop zero start sie_set q st = out_of_fuel
advance_loop (suc fuel) start sie_set q st = do
  let q' = record q { cur_task_idx = next_index q }
  t ← current_task q'
  elim (is_ready t) [
    | true ↦ ok (q', if sie_set then record { sie = false; spp = false } else st)
    | false ↦ elim (q'.cur_task_idx == start) [
      | true ↦ advance_loop fuel start true q' (record { sie = true; spp = true })
      | false ↦ advance_loop fuel start sie_set q' st
    ]
  ]

unfoldable pub advance : ℕ → TaskQueue → Sstatus → Run (TaskQueue × Sstatus)
unfolding advance_loop
advance fuel q st = advance_loop fuel q.cur_task_idx false q st

unfoldable pub new_task : TaskQueue → TaskData → TaskQueue
new_task q t = record q { queue = q.queue ++ t ∷ [] }

unfoldable pub find_task : List TaskData → ℕ → Option TaskData
find_task [] id = none
find_task (t ∷ ts) id = if t.task_id == id then some t else find_task ts id

-- What a write through `find_task_mut` does; `none` if no task has the number.
unfoldable pub update_task : List TaskData → ℕ → (TaskData → TaskData) → Option (List TaskData)
update_task [] id f = none
update_task (t ∷ ts) id f =
    if t.task_id == id
    then some (f t ∷ ts)
    else elim (update_task ts id f) [ none ↦ none | some ts' ↦ some (t ∷ ts') ]

-- The frame that a trap saved becomes that of the current task.
unfoldable pub update_current : TaskQueue → TrapFrame → Run TaskQueue
update_current q frame = do t ← current_task q; ok (set_current q (record t { trap_frame = frame }))

-- What a switch leaves: the queue, the status, the address space and the frame to return to.
pub record Switch : Type 0 where
  pub tasks : TaskQueue
  pub sstatus : Sstatus
  pub satp : ℕ
  pub frame : TrapFrame

unfoldable pub advance_task : ℕ → TaskQueue → Sstatus → TrapFrame → Run Switch
unfolding update_current
advance_task fuel q st frame = do
  q ← update_current q frame
  (q, st) ← advance fuel q st
  t ← current_task q
  ok (record { tasks = q; sstatus = st; satp = t.task_table; frame = t.trap_frame })

-- `Vec::swap_remove`: the last element takes the place of the one that is removed.
abbrev pub drop_last : List TaskData → List TaskData
drop_last [] = []
drop_last (t ∷ []) = []
drop_last (t ∷ u ∷ ts) = t ∷ drop_last (u ∷ ts)

unfoldable pub swap_remove : List TaskData → ℕ → Run (List TaskData)
swap_remove ts i = do
  removed ← unwrap (get_elem? ts i)
  last ← unwrap (get_elem? ts (length ts - 1))
  ok (drop_last (set ts i last))

unfoldable pub drop_task : ℕ → TaskQueue → Sstatus → ℕ → Run (TaskQueue × Sstatus)
drop_task fuel q st index = do
  (q, st) ← if q.cur_task_idx == index then advance fuel q st else ok (q, st)
  ts ← swap_remove q.queue index
  ok (record { queue = ts; cur_task_idx = sub64 q.cur_task_idx 1 }, st)

unfoldable pub full_drop_task : ℕ → TaskQueue → Sstatus → ℕ → Run (TaskQueue × Sstatus)
full_drop_task fuel q st index = drop_task fuel q st index
