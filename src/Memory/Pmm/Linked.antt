-- ===== src/Memory/Pmm/Linked.antt =====
-- What a list of free frames is: entries that are linked both ways through distinct frames.
use lsd_limine.Prelude.{
  ℕ, ◌+◌, ◌%◌, ◌^◌, ◌≤◌, ◌<◌, ◌≡◌, ◌≢◌, refl, ap, ◌∙◌, Bool, true, false, ◌||◌, some, List, [], ◌∷◌,
  ◌++◌, arith, ◌==◌, length, All, ok, ne→==,
}
use lsd_limine.Memory.Pmm.{
  FreeListEntry, entry, null, Cells, FreeList, write, load, set_prev, set_next,
}

abbrev pub has : ℕ → List ℕ → Bool
has a [] = false
has a (x ∷ xs) = (a == x) || has a xs

abbrev pub Distinct : List ℕ → Type 0
Distinct [] = Unit
Distinct (x ∷ xs) = (has x xs ≡ false) × Distinct xs

-- The address behind a segment, and the address before what follows it.
abbrev pub first_of : List ℕ → ℕ → ℕ
first_of [] stop = stop
first_of (x ∷ xs) stop = x

abbrev pub last_of : ℕ → List ℕ → ℕ
last_of back [] = back
last_of back (x ∷ xs) = last_of x xs

-- The entries at `xs` are linked in order; the first has `back` before it, the last leads to `stop`.
abbrev pub Linked : Cells → ℕ → List ℕ → ℕ → Type 0
Linked c back [] stop = Unit
Linked c back (x ∷ xs) stop = (c x ≡ some (entry back (first_of xs stop))) × Linked c x xs stop

-- A frame above the offset, aligned, and not the last of the address space.
abbrev pub IsFrame : ℕ → ℕ → Type 0
IsFrame hhdm x = (0 < x) × (hhdm ≤ x) × (x % 4096 ≡ 0) × (x + 4096 < 2 ^ 64)

pub record IsFreeList (hhdm : ℕ) (s : FreeList) (xs : List ℕ) : Type 0 where
  pub offset : 0 < hhdm
  pub head : s.head ≡ first_of xs null
  pub tail : s.tail ≡ last_of null xs
  pub len : s.len ≡ length xs
  pub room : length xs < 2 ^ 64
  pub linked : Linked s.cells null xs null
  pub distinct : Distinct xs
  pub frames : All (IsFrame hhdm) xs

module _ (s : FreeList) (p : ℕ) (e : FreeListEntry) (ne : p ≢ 0) (at : s.cells p ≡ some e) where
  pub load-ok : load p s ≡ ok e
  unfolding load
  load-ok = rw (ne→== p 0 ne, at)

  pub set_prev-ok :
      (q : ℕ) → set_prev p q s ≡ ok (record s { cells = write s.cells p (entry q e.next) })
  unfolding set_prev
  set_prev-ok q = rw load-ok

  pub set_next-ok :
      (q : ℕ) → set_next p q s ≡ ok (record s { cells = write s.cells p (entry e.prev q) })
  unfolding set_next
  set_next-ok q = rw load-ok

pub write_self : (c : Cells) (a : ℕ) (e : FreeListEntry) → write c a e a ≡ some e
unfolding write
write_self c a e = ground arith

pub write_ne : (c : Cells) (a : ℕ) (e : FreeListEntry) (b : ℕ) → b ≢ a → write c a e b ≡ c b
unfolding write
write_ne c a e b ne = ground arith

-- Entries elsewhere may change.
pub Linked-write :
    (c : Cells) (a : ℕ) (e : FreeListEntry) (back : ℕ) (xs : List ℕ) (stop : ℕ)
    → has a xs ≡ false
    → Linked c back xs stop
    → Linked (write c a e) back xs stop
Linked-write c a e back [] stop out l = tt
Linked-write c a e back (x ∷ xs) stop out l =
    (ground (arith, write_ne c a e x), Linked-write c a e x xs stop (ground arith) l.1)

pub has-append : (a : ℕ) (xs ys : List ℕ) → has a (xs ++ ys) ≡ (has a xs || has a ys)
has-append a [] ys = refl
has-append a (x ∷ xs) ys = ground (arith, has-append a xs ys)

pub Linked-append :
    (c : Cells) (back : ℕ) (xs ys : List ℕ) (stop : ℕ)
    → Linked c back xs (first_of ys stop)
    → Linked c (last_of back xs) ys stop
    → Linked c back (xs ++ ys) stop
Linked-append c back [] ys stop l m = m
Linked-append c back (x ∷ []) ys stop l m = (l.0, m)
Linked-append c back (x ∷ y ∷ xs) ys stop l m = (l.0, Linked-append c x (y ∷ xs) ys stop l.1 m)

pub Linked-split :
    (c : Cells) (back : ℕ) (xs ys : List ℕ) (stop : ℕ)
    → Linked c back (xs ++ ys) stop
    → Linked c back xs (first_of ys stop) × Linked c (last_of back xs) ys stop
Linked-split c back [] ys stop l = (tt, l)
Linked-split c back (x ∷ []) ys stop l = ((l.0, tt), l.1)
Linked-split c back (x ∷ y ∷ xs) ys stop l =
    let (m, n) = Linked-split c x (y ∷ xs) ys stop l.1 in ((l.0, m), n)

pub has-last_of : (x : ℕ) (xs : List ℕ) → has (last_of x xs) (x ∷ xs) ≡ true
has-last_of x [] = ground arith
has-last_of x (y ∷ xs) = ground (arith, has-last_of y xs)

pub ne_last_of : (x y : ℕ) (xs : List ℕ) → has x (y ∷ xs) ≡ false → x ≢ last_of y xs
ne_last_of x y xs out e = cc (out, has-last_of y xs, ap (λ (a : ℕ). has a (y ∷ xs)) e)

-- The last entry leads to what follows the segment.
pub last_entry :
    (c : Cells) (back x : ℕ) (xs : List ℕ) (stop : ℕ)
    → Linked c back (x ∷ xs) stop
    → (prev : ℕ) × (c (last_of x xs) ≡ some (entry prev stop))
last_entry c back x [] stop l = (back, l.0)
last_entry c back x (y ∷ xs) stop l = last_entry c x y xs stop l.1

-- To write its `next` field is to lead the segment elsewhere.
pub Linked-relink :
    (c : Cells) (back x : ℕ) (xs : List ℕ) (stop prev q : ℕ)
    → Distinct (x ∷ xs)
    → Linked c back (x ∷ xs) stop
    → c (last_of x xs) ≡ some (entry prev stop)
    → Linked (write c (last_of x xs) (entry prev q)) back (x ∷ xs) q
Linked-relink c back x [] stop prev q d l at = (cc (write_self c x (entry prev q), l.0, at), tt)
Linked-relink c back x (y ∷ xs) stop prev q d l at = (
  write_ne c (last_of y xs) (entry prev q) x (ne_last_of x y xs d.0) ∙ l.0,
  Linked-relink c x y xs stop prev q d.1 l.1 at,
)

pub last_of-append :
    (back : ℕ) (xs : List ℕ) (y : ℕ) (ys : List ℕ) → last_of back (xs ++ y ∷ ys) ≡ last_of y ys
last_of-append back [] y ys = refl
last_of-append back (x ∷ xs) y ys = last_of-append x xs y ys

-- No address of `xs` is one of `ys`.
abbrev pub Apart : List ℕ → List ℕ → Type 0
Apart xs ys = All (λ x. has x ys ≡ false) xs

pub Distinct-append :
    (xs ys : List ℕ) → Distinct xs → Distinct ys → Apart xs ys → Distinct (xs ++ ys)
Distinct-append [] ys d e a = e
Distinct-append (x ∷ xs) ys d e a =
    (ground (arith, has-append x xs ys), Distinct-append xs ys d.1 e a.1)

pub Distinct-split :
    (xs ys : List ℕ) → Distinct (xs ++ ys) → Distinct xs × Distinct ys × Apart xs ys
Distinct-split [] ys d = (tt, d, tt)
Distinct-split (x ∷ xs) ys d =
    let (l, r, a) = Distinct-split xs ys d.1 in
    ((ground (arith, has-append x xs ys), l), r, (ground (arith, has-append x xs ys), a))

pub Apart-one : (xs : List ℕ) (y : ℕ) → has y xs ≡ false → Apart xs (y ∷ [])
Apart-one [] y h = tt
Apart-one (x ∷ xs) y h = (ground arith, Apart-one xs y (ground arith))

pub last_of-All : (P : ℕ → Type 0) (x : ℕ) (xs : List ℕ) → All P (x ∷ xs) → P (last_of x xs)
last_of-All P x [] h = h.0
last_of-All P x (y ∷ xs) h = last_of-All P y xs h.1

pub Apart-right : (xs ys zs : List ℕ) → Apart xs (ys ++ zs) → Apart xs zs
Apart-right [] ys zs h = tt
Apart-right (x ∷ xs) ys zs h = (ground (arith, has-append x ys zs), Apart-right xs ys zs h.1)

pub Apart-has : (xs : List ℕ) (y : ℕ) (ys : List ℕ) → Apart xs (y ∷ ys) → has y xs ≡ false
Apart-has [] y ys h = refl
Apart-has (x ∷ xs) y ys h = ground (arith, Apart-has xs y ys h.1)

pub All-split : (P : ℕ → Type 0) (xs ys : List ℕ) → All P (xs ++ ys) → All P xs × All P ys
All-split P [] ys h = (tt, h)
All-split P (x ∷ xs) ys h = let (l, r) = All-split P xs ys h.1 in ((h.0, l), r)

pub has-tail : (a x : ℕ) (xs : List ℕ) → has a (x ∷ xs) ≡ false → has a xs ≡ false
has-tail a x xs h = ground arith
