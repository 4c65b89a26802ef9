-- ===== src/Traps/Plic.antt =====
-- LSD/src/traps/plic.rs: the table of handlers of external interrupts. The interrupt controller, of
-- the sifive_plic crate, is a state `P` with what that crate does to it; `T` is the rest of the
-- kernel, on which the handlers work.
use lsd_limine.Prelude.{
  ℕ, List, Option, get_elem?, set, Run, ok, panic, ◌>>=◌, ◌>>◌, unwrap, assert, ltb, length,
}

-- The functions that are put in the table.
pub data Handler : Type 0 where
  unknown uart_handler handle_int : Handler

-- What the kernel uses of the controller: the claim of an interrupt, its completion, and the calls
-- that let one through.
pub record Plic (P : Type 0) : Type 0 where
  pub claim_next : P → Option (ℕ × P)
  pub complete : ℕ → P → P
  pub enable_interrupt : ℕ → P → P
  pub set_interrupt_priority : ℕ → ℕ → P → P

-- `INT_HANDLERS.lock()[id] = handler`; an index out of bounds panics.
unfoldable pub set_handler : ℕ → Handler → List Handler → Run (List Handler)
set_handler id h handlers = do assert (ltb id (length handlers)); ok (set handlers id h)

module _ {P T : Type 0} (c : Plic P) (uart input : ℕ → T → Run T) where
  unfoldable pub call : Handler → ℕ → T → Run T
  call unknown id s = panic
  call uart_handler id s = uart id s
  call handle_int id s = input id s

  unfoldable pub handle_external : List Handler → P → T → Run (P × T)
  unfolding call
  handle_external handlers p s = do
    (id, p) ← unwrap (c.claim_next p)
    h ← unwrap (get_elem? handlers id)
    s ← call h id s
    ok (c.complete id p, s)
