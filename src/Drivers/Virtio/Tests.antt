-- ===== src/Drivers/Virtio/Tests.antt =====
-- A device that accepts every choice of features, and an input device with queues of eight entries.
use lsd_limine.Prelude.{
  ℕ, ◌≡◌, ◌==◌, if◌then◌else◌, true, List, [], ◌∷◌, some, ok, inl, Returns, arith, refl, ◌+◌, ◌-◌,
  panic, inr, ◌>>=◌, ◌&&◌,
}
use lsd_limine.Memory.Pmm.{FreeList, Cells, entry, null}
use lsd_limine.Memory.Pmm.Linked.{IsFreeList}
use lsd_limine.Memory.Dma.{Bytes}
use lsd_limine.Drivers.Virtio.Splitqueue
use lsd_limine.Drivers.Virtio.Splitqueue.{is_power_of_two, SplitVirtqueue, repeat, default, range}
use lsd_limine.Drivers.Virtio.Splitqueue.Regions.{DeviceQueue}
use lsd_limine.Drivers.Virtio.Header.{Device, Field, status_field, int_status, queue_used}
use lsd_limine.Drivers.Virtio.Header.Layout.{fields, offset_in, documented, offset_in-documented}
use lsd_limine.Drivers.Virtio.Header.Protocol.{View, IsVirtio, Offer, observe}
use lsd_limine.Drivers.Virtio.Header.Order.{watched}
use lsd_limine.Drivers.Virtio.Input.{Input, State, start, new, command, handle_int, id_name}
use lsd_limine.Traps.Plic.{Plic, unknown, handle_external}
use lsd_limine.Drivers.Virtio.Devices.{route}
use lsd_limine.Drivers.Virtio.Devices.Routed.{route-handle_external}
use lsd_limine.Drivers.Virtio.Input.Started.{start-watched, proper_queue}
use lsd_limine.Drivers.Virtio.Input.Placed.{Placed, new-Placed}
use lsd_limine.Drivers.Virtio.Input.Commands.{IsOffered, command-IsOffered}
use lsd_limine.Drivers.Virtio.Input.Answers.{IsUsed, seen_entry, handle_int-name, handle_int-panic}

abbrev plain_read : Field → View → ℕ
plain_read status_field v = v.status
plain_read int_status v = 1
plain_read _ v = 0

abbrev plain : Device View
plain = record { read = plain_read; write = observe (λ _. true) }

abbrev plain-IsVirtio : IsVirtio (λ _. true) plain
plain-IsVirtio = record { view = λ v. v; write_lem = λ f word x s. refl; read_lem = λ s. refl }

-- A device in use.
abbrev found_view : View
found_view = record {
  status = 15;
  selected = 1;
  feature_word = 0;
  features = λ _. 0;
  queues = λ _. record {
    desc = record { low = 0; high = 0 };
    avail = record { low = 0; high = 0 };
    used = record { low = 0; high = 0 };
    size = 8;
    ready = 1;
  };
}

abbrev eight : SplitVirtqueue
eight = record {
  queue_size = 8;
  freelist = range 0 8;
  descriptors = repeat 8 default;
  available = record { flags = 0; index = 0; ring = repeat 8 0 };
  used = record {
    queue = record {
      flags = 0;
      index = 0;
      ring = repeat 8 (record { start_index = 0; length = 0 });
    };
    last_seen = 0;
  };
}

abbrev placed_queue : SplitVirtqueue → ℕ → DeviceQueue
placed_queue q a = record {
  queue = q;
  descriptors_at = a;
  available_at = a + 0x1000;
  used_at = a + 0x2000;
}

abbrev keyboard : Input
keyboard = record {
  eventqueue = placed_queue eight 0x7000;
  statusqueue = placed_queue eight 0xa000;
}

offset_in-documented_example : offset_in fields queue_used ≡ documented queue_used
offset_in-documented_example = offset_in-documented queue_used

-- A device whose queues have at most 64 entries, and that offers no feature.
abbrev small_offer : Offer
small_offer = record { max_size = λ n. 64; features = λ word. 0 }

start-watched_example :
    (start (watched small_offer plain (λ _. true) plain-IsVirtio) keyboard (found_view, true)).1 ≡ (
      true
      && (proper_queue small_offer 0 keyboard.eventqueue
          && proper_queue small_offer 1 keyboard.statusqueue))
start-watched_example =
    start-watched small_offer plain (λ _. true) plain-IsVirtio keyboard found_view

abbrev frames_at : List ℕ
frames_at = 0x8000 ∷ 0x9000 ∷ 0xa000 ∷ 0xb000 ∷ 0xc000 ∷ 0xd000 ∷ 0xe000 ∷ []

abbrev seven_cells : Cells
seven_cells a =
    if a == 0x8000
    then some (entry null 0x9000)
    else if a == 0xe000
    then some (entry 0xd000 null)
    else some (entry (a - 0x1000) (a + 0x1000))

abbrev seven : FreeList
seven = record { head = 0x8000; tail = 0xe000; len = 7; cells = seven_cells }

seven-IsFreeList : IsFreeList 0x1000 seven frames_at
seven-IsFreeList = record {
  offset = omega arith;
  head = refl;
  tail = refl;
  len = refl;
  room = omega arith;
  linked = (refl, (refl, (refl, (refl, (refl, (refl, (refl, tt)))))));
  distinct = (refl, (refl, (refl, (refl, (refl, (refl, (refl, tt)))))));
  frames = (
    (omega arith, omega arith, refl, omega arith),
    (
      (omega arith, omega arith, refl, omega arith),
      (
        (omega arith, omega arith, refl, omega arith),
        (
          (omega arith, omega arith, refl, omega arith),
          (
            (omega arith, omega arith, refl, omega arith),
            (
              (omega arith, omega arith, refl, omega arith),
              ((omega arith, omega arith, refl, omega arith), tt),
            ),
          ),
        ),
      ),
    ),
  );
}

-- At 0x2000 a configuration that answers with the name "ab".
abbrev answer_bytes : Bytes
answer_bytes a =
    if a == 0x2000
    then 1
    else if a == 0x2002
    then 2
    else if a == 0x2008
    then 97
    else if a == 0x2009
    then 98
    else 0

abbrev at_start : State plain
at_start = record { free = seven; bytes = answer_bytes; device = found_view }

eight_made : Splitqueue.zeroed_queue 8 ≡ inr eight
unfolding Splitqueue.zeroed_queue is_power_of_two
eight_made = refl

new-Placed_example :
    Returns
      (Placed 0x1000 8 eight plain
        (λ _. true)
        plain-IsVirtio
        0x8000
        0x9000
        0xa000
        0xb000
        0xc000
        0xd000
        0xe000
        []
        found_view)
      (new plain 0x1000 8 at_start)
new-Placed_example =
    new-Placed 0x1000 8 eight eight_made (omega arith) plain (λ _. true) plain-IsVirtio 0x8000
      0x9000 0xa000 0xb000 0xc000 0xd000 0xe000 [] at_start seven-IsFreeList

command_example :
    Returns
      (λ (i', s').
        IsOffered plain 0x1000 0x8000 3 0 7
          (range 0 7)
          (0x9000 ∷ 0xa000 ∷ 0xb000 ∷ 0xc000 ∷ 0xd000 ∷ 0xe000 ∷ [])
          keyboard
          at_start
          i'
          s')
      (command plain 0x1000 id_name 0 keyboard at_start)
command_example =
    command-IsOffered plain 0x1000 id_name 0 keyboard at_start 3 0 7 0x8000 0x9000
      (0xa000 ∷ 0xb000 ∷ 0xc000 ∷ 0xd000 ∷ 0xe000 ∷ []) (range 0 7) (omega arith) refl refl refl
      (omega arith) seven-IsFreeList

-- The device has used one entry, which names descriptor 0 at physical address 0x1000.
abbrev answered : SplitVirtqueue
answered = record eight {
  descriptors = record { address = 0x1000; length = 136; flags = 2; next = 0 } ∷ repeat 7 default;
  used = record {
    queue = record {
      flags = 0;
      index = 1;
      ring = repeat 8 (record { start_index = 0; length = 136 });
    };
    last_seen = 0;
  };
}

abbrev asked : Input
asked = record keyboard { statusqueue = placed_queue answered 0xa000 }

answered-IsUsed :
    IsUsed answered
      (record { start_index = 0; length = 136 })
      (record { address = 0x1000; length = 136; flags = 2; next = 0 })
answered-IsUsed = record {
  unseen = λ e. absurd (omega (arith, e));
  slots = omega arith;
  entry = refl;
  named = refl;
}

handle_int-name_example :
    handle_int plain 0x1000 asked at_start
    ≡ ok (
      97 ∷ 98 ∷ [],
      record asked { statusqueue = seen_entry (placed_queue answered 0xa000) },
      at_start,
    )
unfolding observe
handle_int-name_example =
    handle_int-name plain 0x1000 asked at_start (record { start_index = 0; length = 136 })
      (record { address = 0x1000; length = 136; flags = 2; next = 0 }) answered-IsUsed refl
      (omega arith)

handle_int-panic_example : handle_int plain 0x1000 keyboard at_start ≡ panic
handle_int-panic_example = handle_int-panic plain 0x1000 keyboard at_start (inl (refl, refl))

-- A controller on which interrupt 9 is pending, and whose state is what was completed last.
abbrev pending : Plic ℕ
pending = record {
  claim_next = λ p. some (9, p);
  complete = λ id p. id;
  enable_interrupt = λ id p. p;
  set_interrupt_priority = λ id priority p. p;
}

route_example :
    Returns
      (λ (p', hs').
        handle_external pending (λ id s. panic) (λ id s. ok (s + id)) hs' 0 1
        ≡ (ok (1 + 9) >>= λ s'. ok (9, s')))
      (route pending (5 ∷ 9 ∷ []) 0 (repeat 64 unknown))
route_example =
    route-handle_external pending (λ id s. panic) (λ id s. ok (s + id)) (5 ∷ 9 ∷ []) 0
      (repeat 64 unknown) 9 0 0 1 (omega arith, (omega arith, tt)) refl refl
