-- ===== src/Traps/Calls/Spawn.antt =====
-- What the call that starts a thread does.
use lsd_limine.Prelude.{
  get_elem?-append, get_elem?_last, get_elem?-lt, ne→==, ℕ, zero, suc, ◌<◌, ◌≡◌, ◌≢◌, refl, sym,
  ◌∙◌, some, List, [], ◌∷◌, ◌++◌, arith, length, length-append, length-set, get_elem?, set,
  get_elem?-set_self, get_elem?-set_ne, ok, Returns,
}
use lsd_limine.Memory.Fields.{BitField}
use lsd_limine.Traps.Frame.{TrapFrame, Reg, number, a0, a1}
use lsd_limine.Traps.Task.{TaskData, current_task, set_current, new_task, update_current}
use lsd_limine.Traps.Input.{set_a0}
use lsd_limine.Traps.Calls.{Kernel, Outside, set_a1, spawn_thread}

-- What stands before the end of a list is there when the list is longer.
get_elem?_before :
    (ts us : List TaskData) (i : ℕ) → i < length ts → get_elem? (ts ++ us) i ≡ get_elem? ts i
get_elem?_before [] us i h = elim h [ ]
get_elem?_before (t ∷ ts) us zero h = refl
get_elem?_before (t ∷ ts) us (suc i) h = get_elem?_before ts us i (omega arith)

module _ (O : Outside) (frame : TrapFrame) (k : Kernel O.Arenas) (t : TaskData) where
  -- What a call that starts a thread leaves: the frame, the tasks and the arenas.
  pub record Spawned (id : ℕ) (arenas : O.Arenas) (frame' : TrapFrame) (k' : Kernel O.Arenas)
      : Type 0 where
    pub count : length k'.tasks.queue ≡ suc (length k.tasks.queue)
    pub current : current_task k'.tasks ≡ ok (record t { trap_frame = frame })
    pub thread : TaskData
    pub added : get_elem? k'.tasks.queue (length k.tasks.queue) ≡ some thread
    pub same_task : thread.task_id ≡ t.task_id
    pub same_table : thread.task_table ≡ t.task_table
    pub same_privilege : thread.privilege ≡ t.privilege
    pub same_wait : thread.waiting_on ≡ t.waiting_on
    pub same_manager : thread.thread_manager ≡ t.thread_manager
    pub same_vmm : thread.vmm ≡ t.vmm
    pub own_id : thread.thread_id ≡ id
    pub first_argument : thread.trap_frame.registers a0 ≡ t.task_id
    pub second_argument : thread.trap_frame.registers a1 ≡ id
    pub same_pc : thread.trap_frame.sepc ≡ frame.sepc
    pub same_registers :
        (r : Reg)
        → number r ≢ 10
        → number r ≢ 11
        → thread.trap_frame.registers r ≡ frame.registers r
    pub others :
        (i : ℕ)
        → i ≢ k.tasks.cur_task_idx
        → i < length k.tasks.queue
        → get_elem? k'.tasks.queue i ≡ get_elem? k.tasks.queue i
    pub same_index : k'.tasks.cur_task_idx ≡ k.tasks.cur_task_idx
    pub returned : frame'.registers a0 ≡ 0
    pub same_frame :
        (frame'.sepc ≡ frame.sepc)
        × ((r : Reg) → number r ≢ 10 → frame'.registers r ≡ frame.registers r)
    pub rest : k' ≡ record k { tasks = k'.tasks; arenas = arenas }

module _ ⦃B : BitField⦄ (O : Outside) (hhdm levels fuel : ℕ) (frame : TrapFrame)
    (k : Kernel O.Arenas) (t : TaskData)
    (at : get_elem? k.tasks.queue k.tasks.cur_task_idx ≡ some t) where
  -- The current task with the frame of the trap.
  abbrev pub saved : TaskData
  saved = record t { trap_frame = frame }

  abbrev queue1 : List TaskData
  queue1 = set k.tasks.queue k.tasks.cur_task_idx saved

  -- The call that starts a thread keeps the current task current, with the frame of the trap, and
  -- puts a copy of it last that has the next free number, which it finds in its second argument,
  -- behind the number of the task; the caller gets 0.
  pub spawn_thread-Spawned :
      (id : ℕ) (arenas : O.Arenas)
      → O.alloc t.thread_manager 1 k.arenas ≡ some (id, arenas)
      → Returns
          (λ (f, k'). Spawned O frame k t id arenas f k')
          (spawn_thread O hhdm levels fuel frame k)
  unfolding spawn_thread update_current current_task set_current new_task
  spawn_thread-Spawned id arenas h =
      let lt = get_elem?-lt k.tasks.queue k.tasks.cur_task_idx t at in
      let now : get_elem? (set k.tasks.queue k.tasks.cur_task_idx saved) k.tasks.cur_task_idx
          ≡ some saved =
        get_elem?-set_self k.tasks.queue k.tasks.cur_task_idx saved lt in
      let n = length-set k.tasks.queue k.tasks.cur_task_idx saved in
      let thread = record t { trap_frame = set_a1 (set_a0 frame t.task_id) id; thread_id = id } in
      rw (at, now, h)
        (record {
          count = omega (arith, length-append queue1 (thread ∷ []), n);
          current = rw (get_elem?-append queue1 (thread ∷ []) k.tasks.cur_task_idx saved now) refl;
          thread = thread;
          added = rw (sym n) (get_elem?_last queue1 thread);
          same_task = refl;
          same_table = refl;
          same_privilege = refl;
          same_wait = refl;
          same_manager = refl;
          same_vmm = refl;
          own_id = refl;
          first_argument = refl;
          second_argument = refl;
          same_pc = refl;
          same_registers = λ r h1 h2. rw (ne→== (number r) 11 h2, ne→== (number r) 10 h1) refl;
          others = λ i ne small.
              get_elem?_before queue1 (thread ∷ []) i (omega (arith, n))
              ∙ get_elem?-set_ne k.tasks.queue k.tasks.cur_task_idx i saved (λ e. ne (sym e));
          same_index = refl;
          returned = refl;
          same_frame = (refl, λ r h. rw (ne→== (number r) 10 h) refl);
          rest = refl;
        })
