-- ===== src/Traps/Task/Drop.antt =====
-- `drop_task`: which task is the current one when another task has been dropped.
use lsd_limine.Prelude.{ℕ, ◌-◌, ◌==◌, if◌then◌else◌, length}
use lsd_limine.Traps.Task.{TaskQueue}

-- Where, in the queue before, the task stands that is current afterwards; the length of the queue
-- stands for no task.
abbrev pub successor : TaskQueue → ℕ → ℕ
successor q index =
    if q.cur_task_idx == 0
    then length q.queue
    else (if q.cur_task_idx - 1 == index then length q.queue - 1 else q.cur_task_idx - 1)
