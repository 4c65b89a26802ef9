-- ===== src/Drivers/Virtio/Devices/Routed.antt =====
-- Where the interrupts of an input device lead.
use lsd_limine.Prelude.{
  ℕ, ◌≡◌, ◌<◌, inl, inr, refl, true, false, List, [], ◌∷◌, some, ok, get_elem?, set, length, Run,
  Returns, Returns-imp, ◌>>=◌, Bool-cases, sym, ap, arith, lt→ltb, ◌∙◌, All, length-set, ◌≢◌,
  get_elem?-set_self, get_elem?-set_ne,
}
use lsd_limine.Memory.Pmm.Linked.{has, has-tail}
use lsd_limine.Traps.Plic.{Plic, Handler, handle_int, handle_external}
use lsd_limine.Drivers.Virtio.Devices.{route}

-- The interrupts of a list lead to the handler of input devices, and no other has changed.
pub record IsRouted (ints : List ℕ) (hs hs' : List Handler) : Type 0 where
  pub size : length hs' ≡ length hs
  pub inside : (i : ℕ) → has i ints ≡ true → get_elem? hs' i ≡ some handle_int
  pub outside : (i : ℕ) → has i ints ≡ false → get_elem? hs' i ≡ get_elem? hs i

not_first : (i int : ℕ) (ints : List ℕ) → has i (int ∷ ints) ≡ false → i ≢ int
not_first i int ints e q = ground arith

module _ {P : Type 0} (c : Plic P) where
  route-IsRouted :
      (ints : List ℕ) (p : P) (hs : List Handler)
      → All (λ i. i < length hs) ints
      → Returns (λ (p', hs'). IsRouted ints hs hs') (route c ints p hs)
  unfolding route
  route-IsRouted [] p hs h = record { size = refl; inside = λ i e. cc e; outside = λ i e. refl }
  route-IsRouted (int ∷ ints) p hs (h, hh) =
      let q = c.set_interrupt_priority int 2 (c.enable_interrupt int p) in
      let gs = set hs int handle_int in
      let same : length gs ≡ length hs = length-set hs int handle_int in
      rw (lt→ltb int (length hs) h) (
        Returns-imp (λ (p', hs'). IsRouted ints gs hs') (λ (p', hs'). IsRouted (int ∷ ints) hs hs')
          (route c ints q gs)
          (λ (p', hs') r. record {
            size = r.size ∙ same;
            inside = λ i e. elim (Bool-cases (has i ints)) [
              | inl later ↦ r.inside i later
              | inr now ↦
                  let at : i ≡ int = ground arith in
                  r.outside i now ∙ ap (get_elem? gs) at ∙ get_elem?-set_self hs int handle_int h
            ];
            outside = λ i e.
                r.outside i (has-tail i int ints e)
                ∙ get_elem?-set_ne hs int i handle_int (λ q. not_first i int ints e (sym q));
          })
          (route-IsRouted ints q gs (rw same hh)))

  -- The interrupts of an input device, if they are in the table, are routed without a panic. From
  -- then on an external interrupt with one of these numbers runs the handler of input devices with
  -- its number and completes the claim.
  pub route-handle_external :
      {T : Type 0} (uart input : ℕ → T → Run T) (ints : List ℕ) (p : P) (hs : List Handler) (id : ℕ)
      (p1 p2 : P) (s : T)
      → All (λ i. i < length hs) ints
      → c.claim_next p1 ≡ some (id, p2)
      → has id ints ≡ true
      → Returns
          (λ (p', hs').
            handle_external c uart input hs' p1 s
            ≡ (input id s >>= λ s'. ok (c.complete id p2, s')))
          (route c ints p hs)
  unfolding handle_external
  route-handle_external uart input ints p hs id p1 p2 s h claimed e =
      Returns-imp (λ (p', hs'). IsRouted ints hs hs') _ (route c ints p hs)
        (λ (p', hs') r. rw (claimed, r.inside id e) refl) (route-IsRouted ints p hs h)
