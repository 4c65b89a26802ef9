-- ===== src/Traps/Shim/Tests.antt =====
-- The shim at a machine whose stack's top is 0x3000 and whose scratch area is at 0x1000.
use lsd_limine.Prelude.{◌==◌, if◌then◌else◌, refl, arith, ◌+◌, inl, ◌≡◌}
use lsd_limine.Traps.Frame.{number, sp}
use lsd_limine.Traps.Shim.{Machine, run, entry, exit}
use lsd_limine.Traps.Shim.Entry.{IsApart, entry_calls}
use lsd_limine.Traps.Shim.Trip.{trap_returns}

abbrev interrupted : Machine
interrupted = record {
  regs = λ r. 100 + number r;
  mem = λ a. if a == 0x1000 then 0x3000 else 5;
  sscratch = 0x1000;
  sepc = 0x4000;
  scause = 8;
  stval = 0;
  sstatus = 0;
  satp = 0;
}

interrupted-IsApart : IsApart interrupted
interrupted-IsApart = record {
  scratch = omega arith;
  top = (omega arith, omega arith);
  apart = inl (omega arith);
}

abbrev handled : Machine
handled = run entry interrupted

trap_returns_example : ((run exit handled).regs sp ≡ 102) × ((run exit handled).sepc ≡ 0x4000)
trap_returns_example =
    trap_returns interrupted handled sp interrupted-IsApart (λ o h. refl)
      (entry_calls interrupted interrupted-IsApart).3
