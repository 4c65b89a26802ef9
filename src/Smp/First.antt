-- ===== src/Smp/First.antt =====
-- The first core that is started.
use lsd_limine.Prelude.{
  [], ℕ, ◌≡◌, ◌≢◌, ◌⊎◌, inl, inr, refl, false, List, ◌∷◌, ne→==, ==_refl, ap, Bool-cases, ◌∙◌, ◌==◌,
  subst, ==→eq, sym, ==→ne, Bool, true, arith,
}
use lsd_limine.Memory.Pmm.Linked.{has, has-tail}
use lsd_limine.Smp.{
  off, started, loaded, ready, announced, preparing, half, waiting, State, main, core, set_core,
  core_step, main_step, step, Core, prepare, Phase, Move, run, boot,
}

half_injective : (g h : ℕ) → half g ≡ half h → g ≡ h
half_injective g h e = cc e

ne_first : (h g : ℕ) (gs : List ℕ) → has h (g ∷ gs) ≡ false → g ≢ h
ne_first h g gs out e = ground arith

-- What a core has loaded is what was stored for it.
abbrev pub Owns : (ℕ → ℕ) → (ℕ → ℕ) → ℕ → Core → Type 0
Owns stack table h off = Unit
Owns stack table h started = Unit
Owns stack table h (loaded t) = t ≡ table h
Owns stack table h (ready t p) = (t ≡ table h) × (p ≡ stack h)
Owns stack table h (announced t p) = (t ≡ table h) × (p ≡ stack h)

module _ (stack table : ℕ → ℕ) (h : ℕ) (hs : List ℕ) (once : has h hs ≡ false) where
  -- The stages of the first core, with the loop: it is next, its table is stored, it is loading, or
  -- it has announced itself.
  pub record IsNext (s : State) : Type 0 where
    pub phase : s.phase ≡ preparing
    pub rest : s.rest ≡ h ∷ hs
    pub claimed : s.claimed ≡ false
    pub cores : (g : ℕ) → s.cores g ≡ off

  pub record IsHalf (s : State) : Type 0 where
    pub phase : s.phase ≡ half h
    pub rest : s.rest ≡ hs
    pub claimed : s.claimed ≡ false
    pub satp : s.satp ≡ table h
    pub cores : (g : ℕ) → s.cores g ≡ off

  pub record IsLoading (s : State) : Type 0 where
    pub phase : s.phase ≡ waiting
    pub rest : s.rest ≡ hs
    pub claimed : s.claimed ≡ false
    pub satp : s.satp ≡ table h
    pub sp : s.sp ≡ stack h
    pub cores : (g : ℕ) → g ≢ h → s.cores g ≡ off
    pub own :
        (s.cores h ≡ started)
        ⊎ (s.cores h ≡ loaded (table h))
        ⊎ (s.cores h ≡ ready (table h) (stack h))

  pub record IsDone (s : State) : Type 0 where
    pub own : s.cores h ≡ announced (table h) (stack h)
    pub rest : has h s.rest ≡ false
    pub phase : s.phase ≢ half h

  abbrev pub Stage : State → Type 0
  Stage s = IsNext s ⊎ IsHalf s ⊎ IsLoading s ⊎ IsDone s

  next-main : (s : State) → IsNext s → Stage (step stack table main s)
  unfolding step main_step
  next-main s n =
      rw (n.phase, n.rest)
        (inr (
          inl (record {
            phase = refl;
            rest = refl;
            claimed = n.claimed;
            satp = refl;
            cores = n.cores;
          })))

  off-core : (g : ℕ) (s : State) → s.cores g ≡ off → step stack table (core g) s ≡ s
  unfolding step core_step
  off-core g s e = rw e refl

  half-main : (s : State) → IsHalf s → Stage (step stack table main s)
  unfolding step main_step set_core
  half-main s n = rw n.phase (
      inr (
        inr (
          inl (record {
            phase = refl;
            rest = n.rest;
            claimed = n.claimed;
            satp = n.satp;
            sp = refl;
            cores = λ g ne. rw (ne→== g h ne) (n.cores g);
            own = inl (rw (==_refl h) refl);
          }))))

  spin : (s : State) → s.claimed ≡ false → main_step stack table waiting s ≡ s
  unfolding main_step
  spin s c = simp c refl

  loading-main : (s : State) → IsLoading s → Stage (step stack table main s)
  unfolding step
  loading-main s n =
      let e : step stack table main s ≡ s =
        ap (λ p. main_step stack table p s) n.phase ∙ spin s n.claimed in
      subst Stage (sym e) (inr (inr (inl n)))

  -- The first core makes its next move.
  loading_self : (s : State) → IsLoading s → Stage (core_step h (s.cores h) s)
  unfolding core_step set_core
  loading_self s n = elim (n.own) [
    | inl e ↦ rw e (
        inr (
          inr (
            inl (record {
              phase = n.phase;
              rest = n.rest;
              claimed = n.claimed;
              satp = n.satp;
              sp = n.sp;
              cores = λ g ne. rw (ne→== g h ne) (n.cores g ne);
              own = inr (inl (rw (==_refl h, n.satp) refl));
            }))))
    | inr (inl e) ↦ rw e (
        inr (
          inr (
            inl (record {
              phase = n.phase;
              rest = n.rest;
              claimed = n.claimed;
              satp = n.satp;
              sp = n.sp;
              cores = λ g ne. rw (ne→== g h ne) (n.cores g ne);
              own = inr (inr (rw (==_refl h, n.sp) refl));
            }))))
    | inr (inr e) ↦ rw e (
        inr (
          inr (
            inr (record {
              own = rw (==_refl h) refl;
              rest = ap (has h) n.rest ∙ once;
              phase = λ f. cc (f, n.phase);
            }))))
  ]

  loading-core : (g : ℕ) (s : State) → IsLoading s → Stage (step stack table (core g) s)
  unfolding step
  loading-core g s n = elim (Bool-cases (g == h)) [
    | inl same ↦ rw (==→eq g h same) (loading_self s n)
    | inr other ↦ subst Stage (sym (off-core g s (n.cores g (==→ne g h other)))) (inr (inr (inl n)))
  ]

  cores_changed-IsDone :
      (s : State) (cores : ℕ → Core) (claimed : Bool)
      → IsDone s
      → cores h ≡ s.cores h
      → IsDone (record s { cores = cores; claimed = claimed })
  cores_changed-IsDone s cores claimed n e = record {
    own = e ∙ n.own;
    rest = n.rest;
    phase = n.phase;
  }

  set_core-other : (g : ℕ) (c : Core) (cores : ℕ → Core) → g ≢ h → set_core g c cores h ≡ cores h
  unfolding set_core
  set_core-other g c cores ne = rw (ne→== h g (λ e. ne (sym e))) refl

  other_core-IsDone : (g : ℕ) (c : Core) (s : State) → g ≢ h → IsDone s → IsDone (core_step g c s)
  unfolding core_step
  other_core-IsDone g off s ne n = n
  other_core-IsDone g started s ne n =
      cores_changed-IsDone s (set_core g (loaded s.satp) s.cores) s.claimed n
        (set_core-other g (loaded s.satp) s.cores ne)
  other_core-IsDone g (loaded t) s ne n =
      cores_changed-IsDone s (set_core g (ready t s.sp) s.cores) s.claimed n
        (set_core-other g (ready t s.sp) s.cores ne)
  other_core-IsDone g (ready t p) s ne n =
      cores_changed-IsDone s (set_core g (announced t p) s.cores) true n
        (set_core-other g (announced t p) s.cores ne)
  other_core-IsDone g (announced t p) s ne n = n

  own_core-IsDone :
      (c : Core) (s : State)
      → c ≡ announced (table h) (stack h)
      → IsDone s
      → IsDone (core_step h c s)
  unfolding core_step
  own_core-IsDone c s e n = rw e n

  any_core-IsDone : (g : ℕ) (s : State) → IsDone s → IsDone (step stack table (core g) s)
  unfolding step
  any_core-IsDone g s n = elim (Bool-cases (g == h)) [
    | inl same ↦ rw (==→eq g h same) (own_core-IsDone (s.cores h) s n.own n)
    | inr other ↦ other_core-IsDone g (s.cores g) s (==→ne g h other) n
  ]

  prepare-IsDone :
      (rest : List ℕ) (s : State)
      → has h rest ≡ false
      → IsDone s
      → IsDone (prepare stack table rest s)
  unfolding prepare
  prepare-IsDone [] s out n = n
  prepare-IsDone (g ∷ gs) s out n = record {
    own = n.own;
    rest = has-tail h g gs out;
    phase = λ e. ne_first h g gs out (half_injective g h e);
  }

  main_step-IsDone :
      (p : Phase) (s : State) → p ≢ half h → IsDone s → IsDone (main_step stack table p s)
  unfolding main_step
  main_step-IsDone preparing s ne n = prepare-IsDone s.rest s n.rest n
  main_step-IsDone (half g) s ne n = record {
    own = set_core-other g started s.cores (λ e. ne (ap half e)) ∙ n.own;
    rest = n.rest;
    phase = λ e. cc e;
  }
  main_step-IsDone waiting s ne n = elim (Bool-cases s.claimed) [
    | inl c ↦ simp c (record { own = n.own; rest = n.rest; phase = λ e. cc e })
    | inr c ↦ simp c n
  ]

  main-IsDone : (s : State) → IsDone s → IsDone (step stack table main s)
  unfolding step
  main-IsDone s n = main_step-IsDone s.phase s n.phase n

  step-Stage : (m : Move) (s : State) → Stage s → Stage (step stack table m s)
  step-Stage main s (inl n) = next-main s n
  step-Stage main s (inr (inl n)) = half-main s n
  step-Stage main s (inr (inr (inl n))) = loading-main s n
  step-Stage main s (inr (inr (inr n))) = inr (inr (inr (main-IsDone s n)))
  step-Stage (core g) s (inl n) = subst Stage (sym (off-core g s (n.cores g))) (inl n)
  step-Stage (core g) s (inr (inl n)) = subst Stage (sym (off-core g s (n.cores g))) (inr (inl n))
  step-Stage (core g) s (inr (inr (inl n))) = loading-core g s n
  step-Stage (core g) s (inr (inr (inr n))) = inr (inr (inr (any_core-IsDone g s n)))

  run-Stage : (ms : List Move) (s : State) → Stage s → Stage (run stack table ms s)
  unfolding run
  run-Stage [] s n = n
  run-Stage (m ∷ ms) s n = run-Stage ms (step stack table m s) (step-Stage m s n)

  Stage-Owns : (s : State) → Stage s → Owns stack table h (s.cores h)
  Stage-Owns s (inl n) = rw (n.cores h) tt
  Stage-Owns s (inr (inl n)) = rw (n.cores h) tt
  Stage-Owns s (inr (inr (inl n))) = elim (n.own) [
    | inl e ↦ rw e tt
    | inr (inl e) ↦ rw e refl
    | inr (inr e) ↦ rw e (refl, refl)
  ]
  Stage-Owns s (inr (inr (inr n))) = rw n.own (refl, refl)

  -- In every order of the moves, the first core loads its own table and its own stack, whatever
  -- cores come after it, if it is not among them.
  pub first-Owns :
      (ms : List Move) → Owns stack table h ((run stack table ms (boot (h ∷ hs))).cores h)
  unfolding boot
  first-Owns ms = Stage-Owns (run stack table ms (boot (h ∷ hs))) (
      run-Stage ms (boot (h ∷ hs))
        (inl (record { phase = refl; rest = refl; claimed = refl; cores = λ g. refl })))
