-- ===== src/Drivers/Virtio/Devices.antt =====
-- The loop of LSD/src/drivers/virtio/mod.rs over the devices that were found. What is printed is left
-- out.
pub mod Routed
use lsd_limine.Prelude.{ℕ, List, [], ◌∷◌, Option, some, ◌==◌, if◌then◌else◌, Run, ok, ◌>>=◌}
use lsd_limine.Memory.Pmm.{FreeList}
use lsd_limine.Memory.Dma.{Bytes}
use lsd_limine.Traps.Plic.{Plic, Handler, handle_int, set_handler}
use lsd_limine.Drivers.Virtio.Header.{Device, dev_id, device_code, input}
use lsd_limine.Drivers.Virtio.Input
use lsd_limine.Drivers.Virtio.Input.{Input}

-- An element of `VIRTIO_LIST`.
pub record Found (S : Type 0) : Type 0 where
  pub device : S
  pub interrupts : List ℕ

-- What the loop works on: the controller, the table of handlers, the memory, and `INPUT_DEV`.
pub record Board (P : Type 0) : Type 0 where
  pub plic : P
  pub handlers : List Handler
  pub free : FreeList
  pub bytes : Bytes
  pub input_dev : Option Input

module _ {P : Type 0} (c : Plic P) where
  -- The interrupts of an input device.
  unfoldable pub route : List ℕ → P → List Handler → Run (P × List Handler)
  unfolding set_handler
  route [] p handlers = ok (p, handlers)
  route (int ∷ ints) p handlers = do
    let p = c.set_interrupt_priority int 2 (c.enable_interrupt int p)
    handlers ← set_handler int handle_int handlers
    route ints p handlers

  module _ {S : Type 0} (d : Device S) (hhdm : ℕ) where
    unfoldable pub init_input : Found S → Board P → Run (S × Board P)
    unfolding route
    init_input f b = do
      (plic, handlers) ← route f.interrupts b.plic b.handlers
      (i, s) ← Input.init d hhdm (record { free = b.free; bytes = b.bytes; device = f.device })
      ok (
        s.device,
        record {
          plic = plic;
          handlers = handlers;
          free = s.free;
          bytes = s.bytes;
          input_dev = some i;
        },
      )

    -- Only input devices are started.
    unfoldable pub init : List (Found S) → Board P → Run (List S × Board P)
    unfolding init_input
    init [] b = ok ([], b)
    init (f ∷ fs) b = do
      (s, b) ←
          if d.read dev_id f.device == device_code input then init_input f b else ok (f.device, b)
      (ss, b) ← init fs b
      ok (s ∷ ss, b)
