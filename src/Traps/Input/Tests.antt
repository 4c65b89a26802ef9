-- ===== src/Traps/Input/Tests.antt =====
-- A character for a queue of two tasks that wait.
use lsd_limine.Prelude.{ℕ, [], ◌∷◌, refl, ok, ◌≡◌}
use lsd_limine.Traps.Task.{TaskData, char_in, user, find_task}
use lsd_limine.Traps.Input.{Input, uart_handler}
use lsd_limine.Traps.Input.Wake.{woken, Present, uart_handler-Woken}

abbrev waiting : ℕ → TaskData
waiting id = record {
  trap_frame = record { sepc = 0; registers = λ r. 0 };
  task_id = id;
  task_table = 0;
  privilege = user;
  waiting_on = char_in;
  thread_id = 0;
  thread_manager = 0;
  vmm = 0;
}

abbrev two : Input
two = record {
  tasks = record { queue = waiting 7 ∷ waiting 8 ∷ []; cur_task_idx = 0 };
  await_list = 8 ∷ [];
}

two-Present : Present two.tasks.queue two.await_list
unfolding find_task
two-Present = ((waiting 8, refl), tt)

uart_example :
    uart_handler 65 two
    ≡ ok (record {
      tasks = record two.tasks { queue = woken 65 (8 ∷ []) [] two.tasks.queue };
      await_list = [];
    })
uart_example = uart_handler-Woken 65 two two-Present
