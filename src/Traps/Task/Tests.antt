-- ===== src/Traps/Task/Tests.antt =====
-- The round robin on a queue of three tasks, of which the second waits for a character.
use lsd_limine.Prelude.{zero, suc, ℕ, [], ◌∷◌, refl, arith, false, ◌<◌, ◌≡◌, out_of_fuel}
use lsd_limine.Traps.Frame.{TrapFrame}
use lsd_limine.Traps.Task.{
  TaskData, TaskQueue, Sstatus, WaitSrc, no_wait, char_in, user, advance, is_ready,
}
use lsd_limine.Traps.Task.Advance.{IsFirst, Lands, ready_at, advance-IsFirst, advance-spins}

abbrev blank : TrapFrame
blank = record { sepc = 0; registers = λ r. 0 }

abbrev task : ℕ → WaitSrc → TaskData
task id w = record {
  trap_frame = blank;
  task_id = id;
  task_table = 0;
  privilege = user;
  waiting_on = w;
  thread_id = 0;
  thread_manager = 0;
  vmm = 0;
}

abbrev three : TaskQueue
three = record { queue = task 7 no_wait ∷ task 8 char_in ∷ task 9 no_wait ∷ []; cur_task_idx = 0 }

abbrev waiting : TaskQueue
waiting = record { queue = task 7 char_in ∷ task 8 char_in ∷ []; cur_task_idx = 0 }

abbrev off : Sstatus
off = record { sie = false; spp = false }

advance_example : (d : ℕ) × (d < 3) × IsFirst three.queue 0 d × Lands three d (advance 3 three off)
unfolding is_ready
advance_example =
    advance-IsFirst 3 three off 2 (omega arith) (omega arith) (omega arith) refl (omega arith)

none_ready : (j : ℕ) → j < 2 → ready_at waiting.queue j ≡ false
unfolding is_ready
none_ready zero h = refl
none_ready (suc zero) h = refl
none_ready (suc (suc j)) h = absurd (omega arith)

advance-spins_example : advance 5 waiting off ≡ out_of_fuel
advance-spins_example = advance-spins 5 waiting off (omega arith) (omega arith) none_ready
