-- ===== src/Traps/Input.antt =====
-- How a task waits for a character and is woken: the second call of `kernel_io` in
-- LSD/src/arch/riscv/syscalls.rs, the breakpoint arm of `trap_handler` in LSD/src/traps/mod.rs, and
-- `uart_handler` of LSD/src/uart.rs. A state is the task queue and `INPUT_AWAIT_LIST`.
pub mod Wake
mod Tests
use lsd_limine.Prelude.{
  ℕ, ◌==◌, if◌then◌else◌, Bool, List, [], ◌∷◌, ◌++◌, Run, ok, ◌>>=◌, unwrap, false, true,
}
use lsd_limine.Traps.Frame.{TrapFrame, number, a0}
use lsd_limine.Traps.Task.{
  TaskData, TaskQueue, Sstatus, Switch, WaitSrc, no_wait, char_in, breakpoint, current_task,
  set_current, update_task, advance_task,
}

pub record Input : Type 0 where
  pub tasks : TaskQueue
  pub await_list : List ℕ

abbrev pub set_a0 : TrapFrame → ℕ → TrapFrame
set_a0 f v = record f { registers = λ r. if number r == number a0 then v else f.registers r }

-- `waiting_on = w` for the current task.
unfoldable pub wait_on : TaskQueue → WaitSrc → Run TaskQueue
wait_on q w = do t ← current_task q; ok (set_current q (record t { waiting_on = w }))

-- `kernel_io` with 2 in `a1`.
unfoldable pub take_input : ℕ → Input → Sstatus → TrapFrame → Run (Switch × List ℕ)
take_input fuel s st frame = do
  t ← current_task s.tasks
  q ← wait_on s.tasks char_in
  w ← advance_task fuel q st frame
  ok (w, s.await_list ++ t.task_id ∷ [])

unfoldable pub on_breakpoint : ℕ → TaskQueue → Sstatus → TrapFrame → Run Switch
on_breakpoint fuel q st frame = do q ← wait_on q breakpoint; advance_task fuel q st frame

unfoldable pub is_char_in : TaskData → Bool
is_char_in t = elim (t.waiting_on) [ no_wait ↦ false | char_in ↦ true | breakpoint ↦ false ]

-- What the loop of `uart_handler` does to a task that it finds.
unfoldable pub wake : ℕ → TaskData → TaskData
wake input t =
    if is_char_in t
    then record t { trap_frame = set_a0 t.trap_frame input; waiting_on = no_wait }
    else t

-- The loop, over the numbers of the tasks that wait.
unfoldable pub wake_all : ℕ → List ℕ → List TaskData → Run (List TaskData)
wake_all input [] ts = ok ts
wake_all input (id ∷ ids) ts = do
  ts ← unwrap (update_task ts id (wake input))
  wake_all input ids ts

-- `input` is what the data register reads.
unfoldable pub uart_handler : ℕ → Input → Run Input
uart_handler input s = do
  ts ← wake_all input s.await_list s.tasks.queue
  ok (record { tasks = record s.tasks { queue = ts }; await_list = [] })
