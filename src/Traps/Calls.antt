-- ===== src/Traps/Calls.antt =====
-- The system calls of LSD/src/arch/riscv/syscalls.rs and `trap_handler` of LSD/src/traps/mod.rs.
-- `Kernel` is what they share: the tasks, the tasks that wait for input, `sstatus` and `satp`, and
-- the memory. What is printed, the firmware's timer, the interrupt controller and the arenas of the
-- vmem crate, which tasks name, are parameters. `fuel` bounds the loops of `advance` and `map`.
pub mod Spawn
pub mod End
pub mod Ecall
mod Tests
use lsd_limine.Prelude.{
  ℕ, zero, suc, ◌+◌, ◌/◌, ◌%◌, ◌*◌, Bool, true, false, Option, none, some, List, [], ◌∷◌, ◌++◌,
  ◌==◌, if◌then◌else◌, Run, ok, panic, out_of_fuel, ◌>>=◌, unwrap, add64, sub64, mul64,
}
use mathlib.Core.List.{reverse}
use lsd_limine.Memory.Fields.{BitField}
use lsd_limine.Memory.Paging.{level1, from_usize, as_ptr}
use lsd_limine.Memory.Tables.{State, map, virt_to_phys}
use lsd_limine.Memory.Vmm.{claim_phys, frames_of}
use lsd_limine.Traps.Frame.{TrapFrame, number, a0, a1, a2, a3}
use lsd_limine.Traps.Cause.{
  Trap, from_cause, supervisor_timer_interrupt, store_page_fault, supervisor_external_interrupt,
  user_mode_environment_call, breakpoint_trap,
}
use lsd_limine.Traps.Task.{
  TaskData, TaskQueue, Sstatus, Switch, current_task, new_task, update_current, advance_task,
  drop_task, full_drop_task,
}
use lsd_limine.Traps.Input.{Input, set_a0, take_input, on_breakpoint}

pub record Kernel (V : Type 0) : Type 0 where
  pub tasks : TaskQueue
  pub await_list : List ℕ
  pub sstatus : Sstatus
  pub satp : ℕ
  pub memory : State
  pub arenas : V
  pub uart : ℕ

-- The arenas by the names that tasks keep: `alloc` with the next fit strategy, where `none` is an
-- error. `print` stands for the output of the bytes from a pointer on.
pub record Outside : Type 1 where
  pub Arenas : Type 0
  pub alloc : ℕ → ℕ → Arenas → Option (ℕ × Arenas)
  pub timer_set : Option (Unit {0})
  pub handle_external : Kernel Arenas → Run (Kernel Arenas)
  pub print : ℕ → ℕ → Kernel Arenas → Run (Kernel Arenas)
  -- `write` of the spin crate's `RwLock`, given whether a guard of it is still alive.
  pub write_lock : Bool → Run (Unit {0})

-- A switch of tasks in the whole state.
unfoldable pub switched : {V : Type 0} → Kernel V → Switch → TrapFrame × Kernel V
switched k w = (w.frame, record k { tasks = w.tasks; sstatus = w.sstatus; satp = w.satp })

unfoldable pub forfeit : {V : Type 0} → ℕ → TrapFrame → Kernel V → Run (TrapFrame × Kernel V)
unfolding switched
forfeit fuel frame k = do w ← advance_task fuel k.tasks k.sstatus frame; ok (switched k w)

-- Reading, writing and user access.
abbrev pub heap_flags : ℕ
heap_flags = 0b010110

abbrev pub set_a1 : TrapFrame → ℕ → TrapFrame
set_a1 f v = record f { registers = λ r. if number r == number a1 then v else f.registers r }

-- `.iter().rev().enumerate()`, with the index of the first that is left.
abbrev pub enumerate : ℕ → List TaskData → List (ℕ × TaskData)
enumerate i [] = []
enumerate i (t ∷ ts) = (i, t) ∷ enumerate (i + 1) ts

abbrev pub uart_page : ℕ
uart_page = 0xffffffff90000000

module _ ⦃B : BitField⦄ (O : Outside) (hhdm levels fuel : ℕ) where
  -- `kernel_io` with 1 in `a1`.
  unfoldable pub print_string : TrapFrame → Kernel O.Arenas → Run (TrapFrame × Kernel O.Arenas)
  print_string frame k = do
    phys ← virt_to_phys hhdm fuel k.satp levels (frame.registers a2) k.memory.tables
    phys ← unwrap phys
    k ← O.print (as_ptr hhdm phys) (frame.registers a3) k
    ok (frame, k)

  unfoldable pub kernel_io : TrapFrame → Kernel O.Arenas → Run (TrapFrame × Kernel O.Arenas)
  unfolding print_string switched
  kernel_io frame k =
      if frame.registers a1 == 1
      then print_string frame k
      else if frame.registers a1 == 2
      then (do
        (w, list) ←
            take_input fuel (record { tasks = k.tasks; await_list = k.await_list }) k.sstatus frame
        ok (switched (record k { await_list = list }) w))
      else panic

  -- The loop that maps the new pages, with the rounds that are left.
  unfoldable pub extend_pages : ℕ → ℕ → ℕ → State → Run State
  extend_pages table zero vaddr s = ok s
  extend_pages table (suc rounds) vaddr s = do
    (phys, s) ← claim_phys hhdm s
    s ← map hhdm fuel table vaddr phys (from_usize levels) level1 heap_flags s
    extend_pages table rounds (vaddr + 0x1000) s

  unfoldable pub extend_heap : TrapFrame → Kernel O.Arenas → Run (TrapFrame × Kernel O.Arenas)
  unfolding extend_pages
  extend_heap frame k = do
    let frames = frames_of (frame.registers a2)
    t ← current_task k.tasks
    (vaddr, arenas) ← unwrap (O.alloc t.vmm (mul64 frames 0x1000) k.arenas)
    s ← extend_pages (mul64 (B.get t.task_table 43 0) 0x1000) frames vaddr k.memory
    ok (set_a0 frame vaddr, record k { memory = s; arenas = arenas })

  unfoldable pub spawn_thread : TrapFrame → Kernel O.Arenas → Run (TrapFrame × Kernel O.Arenas)
  spawn_thread frame k = do
    q ← update_current k.tasks frame
    t ← current_task q
    (thread_id, arenas) ← unwrap (O.alloc t.thread_manager 1 k.arenas)
    let clone = record t {
      thread_id = thread_id;
      trap_frame = set_a1 (set_a0 t.trap_frame t.task_id) thread_id;
    }
    ok (set_a0 frame 0, record k { tasks = new_task q clone; arenas = arenas })

  unfoldable pub drop_thread : TrapFrame → Kernel O.Arenas → Run (TrapFrame × Kernel O.Arenas)
  unfolding forfeit
  drop_thread frame k = do
    let index = k.tasks.cur_task_idx
    (frame, k) ← forfeit fuel frame k
    (q, st) ← drop_task fuel k.tasks k.sstatus index
    ok (frame, record k { tasks = q; sstatus = st })

  -- What `drop_task` and `full_drop_task` do when they are called: they take the lock, and drop the
  -- task.
  unfoldable pub drop_locked : Bool → ℕ → TaskData → TaskQueue × Sstatus → Run (TaskQueue × Sstatus)
  drop_locked held index t (q, st) = do
    taken ← O.write_lock held
    if t.thread_id == 0 then full_drop_task fuel q st index else drop_task fuel q st index

  -- The loop of the call that ends a program, over the tasks behind the guard, which is alive.
  unfoldable pub drop_all :
      ℕ → List (ℕ × TaskData) → TaskQueue × Sstatus → Run (TaskQueue × Sstatus)
  unfolding drop_locked
  drop_all id [] s = ok s
  drop_all id ((index, t) ∷ ts) s = do
    s ← if t.task_id == id then drop_locked true index t s else ok s
    drop_all id ts s

  unfoldable pub end_program : TrapFrame → Kernel O.Arenas → Run (TrapFrame × Kernel O.Arenas)
  unfolding forfeit drop_all
  end_program frame k = do
    t ← current_task k.tasks
    (frame, k) ← forfeit fuel frame k
    taken ← O.write_lock false
    (q, st) ← drop_all t.task_id (enumerate 0 (reverse k.tasks.queue)) (k.tasks, k.sstatus)
    ok (frame, record k { tasks = q; sstatus = st })

  unfoldable pub kernel_task : TrapFrame → Kernel O.Arenas → Run (TrapFrame × Kernel O.Arenas)
  unfolding forfeit extend_heap spawn_thread drop_thread end_program
  kernel_task frame k =
      let call = frame.registers a1 in
      if call == 0
      then forfeit fuel frame k
      else if call == 1
      then extend_heap frame k
      else if call == 2
      then spawn_thread frame k
      else if call == 3
      then drop_thread frame k
      else if call == 4
      then end_program frame k
      else panic

  unfoldable pub syscall_core : TrapFrame → Kernel O.Arenas → Run (TrapFrame × Kernel O.Arenas)
  unfolding kernel_io kernel_task
  syscall_core frame k =
      if frame.registers a0 == 0
      then kernel_io frame k
      else if frame.registers a0 == 1
      then kernel_task frame k
      else panic

  -- The arms of `trap_handler`; `out_of_fuel` is the loop behind them that has no end.
  unfoldable pub handle : Trap → ℕ → TrapFrame → Kernel O.Arenas → Run (TrapFrame × Kernel O.Arenas)
  unfolding forfeit syscall_core switched
  handle supervisor_timer_interrupt stval regs k = do done ← unwrap O.timer_set; forfeit fuel regs k
  handle store_page_fault stval regs k =
      if stval == uart_page
      then ok (regs, record k { uart = add64 0x10000000 hhdm })
      else out_of_fuel
  handle supervisor_external_interrupt stval regs k = do k ← O.handle_external k; ok (regs, k)
  handle user_mode_environment_call stval regs k =
      syscall_core (record regs { sepc = add64 regs.sepc 4 }) k
  handle breakpoint_trap stval regs k = do
    w ← on_breakpoint fuel k.tasks k.sstatus regs
    ok (switched k w)
  handle _ stval regs k = out_of_fuel

  unfoldable pub trap_handler :
      ℕ → ℕ → TrapFrame → Kernel O.Arenas → Run (TrapFrame × Kernel O.Arenas)
  unfolding handle
  trap_handler scause stval regs k = handle (from_cause scause) stval regs k
