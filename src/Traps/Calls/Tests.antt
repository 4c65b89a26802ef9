-- ===== src/Traps/Calls/Tests.antt =====
-- Calls of a task beside another that is ready.
use lsd_limine.Prelude.{
  true, false, ℕ, suc, [], ◌∷◌, ◌≡◌, refl, arith, some, ok, Returns, out_of_fuel, if◌then◌else◌,
  ◌==◌,
}
use lsd_limine.Memory.Tables.Samples.{arithmetic_fields, sv48, start}
use lsd_limine.Traps.Frame.{TrapFrame, number}
use lsd_limine.Traps.Cause.{discriminant, user_mode_environment_call}
use lsd_limine.Traps.Task.{TaskData, no_wait, user, is_ready}
use lsd_limine.Traps.Calls.{Kernel, Outside, trap_handler}
use lsd_limine.Traps.Calls.Spawn.{Spawned}
use lsd_limine.Traps.Calls.Ecall.{behind, trap_handler-Spawned, trap_handler-hangs}

abbrev call : ℕ → TrapFrame
call n = record {
  sepc = 0x1000;
  registers = λ r. if number r == 10 then 1 else if number r == 11 then n else 0;
}

abbrev task : ℕ → TaskData
task id = record {
  trap_frame = call 0;
  task_id = id;
  task_table = 0;
  privilege = user;
  waiting_on = no_wait;
  thread_id = 0;
  thread_manager = 0;
  vmm = 0;
}

-- The arenas count the numbers that they gave.
abbrev counting : Outside
counting = record {
  Arenas = ℕ;
  alloc = λ name size n. some (suc n, suc n);
  timer_set = some tt;
  handle_external = λ k. ok k;
  print = λ p n k. ok k;
  write_lock = λ held. if held then out_of_fuel else ok tt;
}

abbrev running : Kernel ℕ
running = record {
  tasks = record { queue = task 7 ∷ task 8 ∷ []; cur_task_idx = 0 };
  await_list = [];
  sstatus = record { sie = false; spp = false };
  satp = 1;
  memory = start;
  arenas = 0;
  uart = 0;
}

trap_handler-Spawned_example :
    Returns
      (λ (f, k'). Spawned counting (behind (call 2)) running (task 7) 1 1 f k')
      (trap_handler counting sv48 4 5 (discriminant user_mode_environment_call) 0 (call 2) running)
trap_handler-Spawned_example =
    trap_handler-Spawned counting sv48 4 5 0 (call 2) running (task 7) 1 1 refl refl refl refl

ready : is_ready (task 8) ≡ true
unfolding is_ready
ready = refl

trap_handler-hangs_example :
    trap_handler counting sv48 4 5 (discriminant user_mode_environment_call) 0 (call 4) running
    ≡ out_of_fuel
trap_handler-hangs_example =
    trap_handler-hangs counting sv48 4 5 0 (call 4) running (task 7) 1 refl refl refl refl refl
      (omega arith) ready (omega arith) (omega arith) (omega arith)
