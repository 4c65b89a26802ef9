-- ===== src/Smp/Shared.antt =====
-- Two cores with one stack.
use lsd_limine.Prelude.{ℕ, ◌≡◌, ◌≢◌, refl, ap, ◌∙◌, true, List, [], ◌∷◌, ==_refl, ne→==, false, sym}
use lsd_limine.Smp.{
  Core, off, started, loaded, ready, announced, waiting, State, Move, main, core, set_core, boot,
  prepare, core_step, main_step, step, run,
}

set_core_self : (g : ℕ) (c : Core) (cores : ℕ → Core) → set_core g c cores g ≡ c
unfolding set_core
set_core_self g c cores = rw (==_refl g) refl

set_core_ne : (g f : ℕ) (c : Core) (cores : ℕ → Core) → f ≢ g → set_core g c cores f ≡ cores f
unfolding set_core
set_core_ne g f c cores ne = rw (ne→== f g ne) refl

-- The first core is waited for, as `claimed` is not set; it stays set, so the other two are not.
abbrev pub hasty : ℕ → ℕ → ℕ → List Move
hasty h1 h2 h3 =
    main
    ∷ main
    ∷ core h1
    ∷ core h1
    ∷ core h1
    ∷ main
    ∷ main
    ∷ main
    ∷ main
    ∷ main
    ∷ main
    ∷ core h2
    ∷ core h2
    ∷ core h3
    ∷ core h3
    ∷ []

module _ (stack table : ℕ → ℕ) (h1 h2 h3 : ℕ) (hs : List ℕ) (ne23 : h2 ≢ h3) where
  core-move :
      (g : ℕ) (c : Core) (s : State) → s.cores g ≡ c → step stack table (core g) s ≡ core_step g c s
  unfolding step
  core-move g c s e = ap (λ d. core_step g d s) e

  abbrev given : ℕ → Core
  given = λ _. off

  abbrev c1 : ℕ → Core
  c1 = set_core h1 started given

  abbrev c2 : ℕ → Core
  c2 = set_core h1 (loaded (table h1)) c1

  abbrev c3 : ℕ → Core
  c3 = set_core h1 (ready (table h1) (stack h1)) c2

  abbrev c4 : ℕ → Core
  c4 = set_core h3 started (set_core h2 started (set_core h1 (announced (table h1) (stack h1)) c3))

  abbrev at : (ℕ → Core) → State
  at cores = record {
    sp = stack h1;
    satp = table h1;
    claimed = false;
    rest = h2 ∷ h3 ∷ hs;
    phase = waiting;
    cores = cores;
  }

  abbrev later : (ℕ → Core) → State
  later cores = record {
    sp = stack h3;
    satp = table h3;
    claimed = true;
    rest = hs;
    phase = waiting;
    cores = cores;
  }

  first_half :
      (ms : List Move)
      → run stack table
          (main ∷ main ∷ core h1 ∷ core h1 ∷ core h1 ∷ main ∷ main ∷ main ∷ main ∷ main ∷ main ∷ ms)
          (boot (h1 ∷ h2 ∷ h3 ∷ hs))
        ≡ run stack table ms (later c4)
  unfolding run boot step main_step prepare core_step
  first_half ms =
      let after = main ∷ main ∷ main ∷ main ∷ main ∷ main ∷ ms in
      ap (run stack table (core h1 ∷ core h1 ∷ after))
        (core-move h1 started (at c1) (set_core_self h1 started given))
      ∙ ap (run stack table (core h1 ∷ after))
          (core-move h1 (loaded (table h1)) (at c2) (set_core_self h1 (loaded (table h1)) c1))
      ∙ ap (run stack table after) (
          core-move h1 (ready (table h1) (stack h1)) (at c3)
            (set_core_self h1 (ready (table h1) (stack h1)) c2))

  abbrev both : Core
  both = ready (table h3) (stack h3)

  abbrev c5 : ℕ → Core
  c5 = set_core h2 (loaded (table h3)) c4

  abbrev c6 : ℕ → Core
  c6 = set_core h2 both c5

  abbrev c7 : ℕ → Core
  c7 = set_core h3 (loaded (table h3)) c6

  second_half :
      run stack table (core h2 ∷ core h2 ∷ core h3 ∷ core h3 ∷ []) (later c4)
      ≡ later (set_core h3 both c7)
  unfolding run core_step
  second_half =
      let two : c4 h2 ≡ started =
        set_core_ne h3 h2 started
          (set_core h2 started (set_core h1 (announced (table h1) (stack h1)) c3)) ne23
        ∙ set_core_self h2 started (set_core h1 (announced (table h1) (stack h1)) c3) in
      let three : c6 h3 ≡ started =
        set_core_ne h2 h3 both c5 (λ e. ne23 (sym e))
        ∙ set_core_ne h2 h3 (loaded (table h3)) c4 (λ e. ne23 (sym e))
        ∙ set_core_self h3 started
            (set_core h2 started (set_core h1 (announced (table h1) (stack h1)) c3)) in
      ap (run stack table (core h2 ∷ core h3 ∷ core h3 ∷ [])) (core-move h2 started (later c4) two)
      ∙ ap (run stack table (core h3 ∷ core h3 ∷ []))
          (core-move h2 (loaded (table h3)) (later c5) (set_core_self h2 (loaded (table h3)) c4))
      ∙ ap (run stack table (core h3 ∷ [])) (core-move h3 started (later c6) three)
      ∙ core-move h3 (loaded (table h3)) (later c7) (set_core_self h3 (loaded (table h3)) c6)

  -- With three other cores or more there is an order of moves after which the second and the third
  -- have both loaded the table and the stack of the third, since `claimed` is still set when the
  -- loop waits for the second.
  pub hasty-shared :
      ((run stack table (hasty h1 h2 h3) (boot (h1 ∷ h2 ∷ h3 ∷ hs))).cores h2
        ≡ ready (table h3) (stack h3))
      × ((run stack table (hasty h1 h2 h3) (boot (h1 ∷ h2 ∷ h3 ∷ hs))).cores h3
          ≡ ready (table h3) (stack h3))
  hasty-shared =
      let reached : run stack table (hasty h1 h2 h3) (boot (h1 ∷ h2 ∷ h3 ∷ hs))
          ≡ later (set_core h3 both c7) =
        first_half (core h2 ∷ core h2 ∷ core h3 ∷ core h3 ∷ []) ∙ second_half in
      rw reached (
        set_core_ne h3 h2 both c7 ne23
            ∙ set_core_ne h3 h2 (loaded (table h3)) c6 ne23
            ∙ set_core_self h2 both c5,
        set_core_self h3 both c7,
      )
