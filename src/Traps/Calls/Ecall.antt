-- ===== src/Traps/Calls/Ecall.antt =====
-- System calls from the trap on.
use lsd_limine.Prelude.{
  ℕ, ◌≤◌, ◌<◌, ◌^◌, ◌≡◌, ◌≢◌, refl, true, false, some, length, get_elem?, out_of_fuel, ok, Returns,
  add64,
}
use lsd_limine.Memory.Fields.{BitField}
use lsd_limine.Traps.Frame.{TrapFrame, a0, a1}
use lsd_limine.Traps.Cause.{discriminant, from_cause, user_mode_environment_call}
use lsd_limine.Traps.Task.{TaskData}
use lsd_limine.Traps.Task.Advance.{ready_at}
use lsd_limine.Traps.Calls.{Kernel, Outside, handle, trap_handler, syscall_core, kernel_task}
use lsd_limine.Traps.Calls.Spawn.{Spawned, spawn_thread-Spawned}
use lsd_limine.Traps.Calls.End.{end_program-hangs}

-- The frame behind the instruction that made the call.
abbrev pub behind : TrapFrame → TrapFrame
behind regs = record regs { sepc = add64 regs.sepc 4 }

module _ ⦃B : BitField⦄ (O : Outside) (hhdm levels fuel stval : ℕ) (regs : TrapFrame)
    (k : Kernel O.Arenas) where
  trap_handler-kernel_task :
      regs.registers a0 ≡ 1
      → trap_handler O hhdm levels fuel (discriminant user_mode_environment_call) stval regs k
        ≡ kernel_task O hhdm levels fuel (behind regs) k
  unfolding trap_handler from_cause discriminant handle syscall_core
  trap_handler-kernel_task h = rw h refl

  -- A trap of user mode with 1 and 2 in its first two arguments, where there is a current task and
  -- its arena of threads has a number, starts a thread: the current task stays current and has the
  -- frame behind the call, a copy of it is put last, and the tasks before that are what they were.
  -- The copy differs from the current task only in its own number, which is the one that the arena
  -- gave, and in its first two arguments, the numbers of its task and of the thread. The caller
  -- gets 0 in its first argument, which is all of its frame that changes, and nothing else in the
  -- kernel changes but the arenas.
  pub trap_handler-Spawned :
      (t : TaskData) (id : ℕ) (arenas : O.Arenas)
      → regs.registers a0 ≡ 1
      → regs.registers a1 ≡ 2
      → get_elem? k.tasks.queue k.tasks.cur_task_idx ≡ some t
      → O.alloc t.thread_manager 1 k.arenas ≡ some (id, arenas)
      → Returns
          (λ (f, k'). Spawned O (behind regs) k t id arenas f k')
          (trap_handler O hhdm levels fuel (discriminant user_mode_environment_call) stval regs k)
  unfolding kernel_task
  trap_handler-Spawned t id arenas h g at e =
      rw (trap_handler-kernel_task h, kernel_task, g)
        (spawn_thread-Spawned O hhdm levels fuel (behind regs) k t at id arenas e)

  -- Let `write` of the lock return when no guard is alive, and not while one is. Then a trap of user
  -- mode with 1 and 4 in its first two arguments, to end the program, never returns when a task other
  -- than the current one is ready: the loop over the tasks keeps its guard, and the first task of the
  -- program that it meets, which the current one is if none comes before, is dropped by a call that
  -- takes the lock again.
  pub trap_handler-hangs :
      (t : TaskData) (j : ℕ)
      → regs.registers a0 ≡ 1
      → regs.registers a1 ≡ 4
      → get_elem? k.tasks.queue k.tasks.cur_task_idx ≡ some t
      → O.write_lock true ≡ out_of_fuel
      → O.write_lock false ≡ ok tt
      → k.tasks.cur_task_idx ≢ j
      → ready_at k.tasks.queue j ≡ true
      → j < length k.tasks.queue
      → length k.tasks.queue < 2 ^ 64
      → length k.tasks.queue ≤ fuel
      → trap_handler O hhdm levels fuel (discriminant user_mode_environment_call) stval regs k
        ≡ out_of_fuel
  unfolding kernel_task
  trap_handler-hangs t j h g at held free ne ready lj small enough =
      rw (trap_handler-kernel_task h, kernel_task, g)
        (end_program-hangs O hhdm levels fuel (behind regs) k t at j held ne ready lj small enough
          free)
