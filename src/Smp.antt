-- ===== src/Smp.antt =====
-- LSD/src/main.rs: how the other cores are started, `smp_init` and `core_main`. The cores run at the
-- same time as the loop, so what happens is a sequence of moves. `stack` and `table` are what the
-- loop computes for a core, the address of its stack and its value of satp.
pub mod First
pub mod Shared
mod Tests
use lsd_limine.Prelude.{ℕ, Bool, true, false, List, [], ◌∷◌, ◌==◌, if◌then◌else◌}

-- What a core has done: the loads of `core_main` and the store to `claimed`, with what it has loaded.
pub data Core : Type 0 where
  off started : Core
  loaded : ℕ → Core
  ready : ℕ → ℕ → Core
  announced : ℕ → ℕ → Core

-- Where the loop of `smp_init` is: before a core, between its two stores, or in the inner loop.
pub data Phase : Type 0 where
  preparing : Phase
  half : ℕ → Phase
  waiting : Phase

-- `CORE_INIT`, the cores that are still to be started, and the cores.
pub record State : Type 0 where
  pub sp : ℕ
  pub satp : ℕ
  pub claimed : Bool
  pub rest : List ℕ
  pub phase : Phase
  pub cores : ℕ → Core

pub data Move : Type 0 where
  main : Move
  core : ℕ → Move

unfoldable pub set_core : ℕ → Core → (ℕ → Core) → ℕ → Core
set_core h c cores g = if g == h then c else cores g

-- `CORE_INIT` as it is declared.
unfoldable pub boot : List ℕ → State
boot harts = record {
  sp = 0;
  satp = 0;
  claimed = false;
  rest = harts;
  phase = preparing;
  cores = λ _. off;
}

-- A round of the loads of `core_main`: the table first, then the stack, then the store.
unfoldable pub core_step : ℕ → Core → State → State
unfolding set_core
core_step h off s = s
core_step h started s = record s { cores = set_core h (loaded s.satp) s.cores }
core_step h (loaded t) s = record s { cores = set_core h (ready t s.sp) s.cores }
core_step h (ready t p) s = record s { cores = set_core h (announced t p) s.cores; claimed = true }
core_step h (announced t p) s = s

module _ (stack table : ℕ → ℕ) where
  -- The first store for the next core, if there is one.
  unfoldable pub prepare : List ℕ → State → State
  prepare [] s = s
  prepare (h ∷ hs) s = record s { satp = table h; phase = half h; rest = hs }

  unfoldable pub main_step : Phase → State → State
  unfolding set_core prepare
  main_step preparing s = prepare s.rest s
  main_step (half h) s = record s {
    sp = stack h;
    phase = waiting;
    cores = set_core h started s.cores;
  }
  main_step waiting s = if s.claimed then record s { claimed = true; phase = preparing } else s

  unfoldable pub step : Move → State → State
  unfolding main_step core_step
  step main s = main_step s.phase s
  step (core h) s = core_step h (s.cores h) s

  unfoldable pub run : List Move → State → State
  unfolding step
  run [] s = s
  run (m ∷ ms) s = run ms (step m s)
