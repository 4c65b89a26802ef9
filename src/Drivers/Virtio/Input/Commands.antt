-- ===== src/Drivers/Virtio/Input/Commands.antt =====
-- What `command` tells the device, and what it writes.
use lsd_limine.Prelude.{
  ℕ, ◌+◌, ◌%◌, ◌^◌, ◌<◌, ◌≡◌, ◌≢◌, List, ◌∷◌, [], ◌++◌, some, ok, Returns, Returns-bind, arith,
  refl, get_elem?, length, set, ◌-◌, lt→ltb, ap, ◌∙◌, get_elem?-set_self, get_elem?-set_ne, sym,
}
use native.Mathlib.Nat.{mod-lt, one-le-pow}
use lsd_limine.Memory.Pmm.Linked.{IsFreeList}
use lsd_limine.Memory.Dma.{new_raw}
use lsd_limine.Drivers.Virtio.Splitqueue.{
  SplitVirtqueue, VirtqueueDescriptor, alloc_descriptor, write, pop_back,
}
use lsd_limine.Drivers.Virtio.Splitqueue.Free.{pop_back-append}
use lsd_limine.Drivers.Virtio.Splitqueue.Available.{push-ok}
use lsd_limine.Drivers.Virtio.Splitqueue.Regions.{AtFrame, new_raw-AtFrame}
use lsd_limine.Drivers.Virtio.Header.{Device, queue_notify, notify}
use lsd_limine.Drivers.Virtio.Input.{
  Input, InputConfigSelect, State, command, config_size, true, store, config_bytes,
}

-- The descriptor of a command whose configuration is at a physical address.
abbrev pub to_write : ℕ → VirtqueueDescriptor
to_write a = record { address = a; length = config_size; flags = 2; next = 0 }

alloc_descriptor-last :
    (q : SplitVirtqueue) (free : List ℕ) (index : ℕ)
    → q.freelist ≡ free ++ index ∷ []
    → alloc_descriptor q ≡ (some index, record q { freelist = free })
unfolding alloc_descriptor
alloc_descriptor-last q free index e =
    let found : pop_back q.freelist ≡ some (index, free) =
      ap pop_back e ∙ pop_back-append free index in
    rw (found, alloc_descriptor) refl

-- After a command with descriptor `index`: what the queue holds, and that descriptor 0 is offered.
pub record IsOffered {S : Type 0} (d : Device S) (hhdm x k n index : ℕ) (free rest : List ℕ)
    (i : Input) (s : State d) (i' : Input) (s' : State d) : Type 0 where
  pub written : get_elem? i'.statusqueue.queue.descriptors index ≡ some (to_write (x - hhdm))
  pub others :
      (j : ℕ)
      → j ≢ index
      → get_elem? i'.statusqueue.queue.descriptors j ≡ get_elem? i.statusqueue.queue.descriptors j
  pub given : i'.statusqueue.queue.freelist ≡ free
  pub offered : get_elem? i'.statusqueue.queue.available.ring (n % 2 ^ k) ≡ some 0
  pub count : i'.statusqueue.queue.available.index ≡ (n + 1) % 2 ^ 16
  pub frames : IsFreeList hhdm s'.free rest
  pub notified : s'.device ≡ d.write queue_notify 0 1 s.device

module _ {S : Type 0} (d : Device S) (hhdm : ℕ) (select : InputConfigSelect) (subsel : ℕ)
    (i : Input) (s : State d) where
  -- `command` with `n` entries offered before, in a ring of `2 ^ k` slots, takes the last free
  -- descriptor and the first free frame and writes the descriptor of its configuration there, but
  -- what it offers to the device is always descriptor 0. So unless the last free descriptor is
  -- descriptor 0, the device is notified of a descriptor that the command has not written.
  pub command-IsOffered :
      (k n index x y : ℕ) (ys free : List ℕ)
      → k < 16
      → length i.statusqueue.queue.available.ring ≡ 2 ^ k
      → i.statusqueue.queue.available.index ≡ n % 2 ^ 16
      → i.statusqueue.queue.freelist ≡ free ++ index ∷ []
      → index < length i.statusqueue.queue.descriptors
      → IsFreeList hhdm s.free (x ∷ y ∷ ys)
      → Returns
          (λ (i', s'). IsOffered d hhdm x k n index free (y ∷ ys) i s i' s')
          (command d hhdm select subsel i s)
  unfolding command write notify
  command-IsOffered k n index x y ys free small ring count last inside v =
      let q = i.statusqueue.queue in
      let frame = v.frames.0 in
      rw
        (
          alloc_descriptor-last q free index last,
          lt→ltb index (length q.descriptors) inside,
          push-ok k n 0 q.available small ring count,
        )
        (Returns-bind (AtFrame hhdm x (y ∷ ys))
          (λ (i', s'). IsOffered d hhdm x k n index free (y ∷ ys) i s i' s')
          (new_raw hhdm config_size 1 true s.free s.bytes)
          (λ (region, free', bytes). ok (
            record i {
              statusqueue = record i.statusqueue {
                queue = record q {
                  freelist = free;
                  descriptors = set q.descriptors index (to_write region.phys);
                  available = record q.available {
                    index = (n + 1) % 2 ^ 16;
                    ring = set q.available.ring (n % 2 ^ k) 0;
                  };
                };
              };
            },
            record {
              free = free';
              bytes = store region.virt (config_bytes select subsel) bytes;
              device = notify d 1 s.device;
            },
          ))
          (new_raw-AtFrame hhdm config_size 1 x y ys true s.free s.bytes (omega arith) (omega arith)
            v)
          (λ (region, free', bytes) (e, e', w). record {
            written =
                get_elem?-set_self q.descriptors index (to_write region.phys) inside
                ∙ ap (λ (a : ℕ). some (to_write a)) (omega (arith, e'));
            others = λ j ne.
                get_elem?-set_ne q.descriptors index j (to_write region.phys) (λ h. ne (sym h));
            given = refl;
            offered =
                get_elem?-set_self q.available.ring (n % 2 ^ k) 0
                  (rw ring (mod-lt n (one-le-pow k 2 (omega arith))));
            count = refl;
            frames = w;
            notified = refl;
          }))
