-- ===== src/Memory/Pmm.antt =====
-- LSD/src/memory/pmm.rs: the list of free frames. A free frame begins with a `FreeListEntry`, so
-- the list lives in the memory that it hands out. A state holds the `FreeList` and the entries that
-- can be read at the addresses that are mapped. `hhdm` is the value of `HHDM_OFFSET`.
pub mod Linked
pub mod Basic
pub mod Claim
pub mod Refine
pub mod Scan
pub mod Map
mod Tests
use lsd_limine.Prelude.{
  ℕ, zero, suc, ◌%◌, Bool, true, false, ◌&&◌, Option, none, some, ltb, ◌==◌, if◌then◌else◌, Run, ok,
  panic, fault, ◌>>=◌, ◌>>◌, add64, sub64, bit_and,
}

pub record FreeListEntry : Type 0 where
  pub prev : ℕ
  pub next : ℕ

abbrev pub entry : ℕ → ℕ → FreeListEntry
entry p n = record { prev = p; next = n }

abbrev pub null : ℕ
null = 0

-- `size_of::<FreeListEntry>()`, which is also its alignment.
abbrev pub frame_size : ℕ
frame_size = 4096

abbrev pub Cells : Type 0
Cells = ℕ → Option FreeListEntry

pub record FreeList : Type 0 where
  pub head : ℕ
  pub tail : ℕ
  pub len : ℕ
  pub cells : Cells

unfoldable pub write : Cells → ℕ → FreeListEntry → Cells
write c a e b = if b == a then some e else c b

unfoldable pub load : ℕ → FreeList → Run FreeListEntry
load p s = if p == null then fault else elim (s.cells p) [ none ↦ fault | some e ↦ ok e ]

-- `(*p).prev = q` and `(*p).next = q`.
unfoldable pub set_prev : ℕ → ℕ → FreeList → Run FreeList
set_prev p q s = do e ← load p s; ok (record s { cells = write s.cells p (record e { prev = q }) })

unfoldable pub set_next : ℕ → ℕ → FreeList → Run FreeList
set_next p q s = do e ← load p s; ok (record s { cells = write s.cells p (record e { next = q }) })

-- `FreeList::init`. The write makes the whole entry anew.
unfoldable pub init : ℕ → FreeList → Run FreeList
init new s = do
  e ← load new s
  ok (record { head = new; tail = new; len = 1; cells = write s.cells new (entry null null) })

-- The tests that `push` and `pull` begin with.
unfoldable pub check_new : ℕ → ℕ → Run (Unit {0})
check_new hhdm new = if ltb new hhdm then panic else if new % frame_size == 0 then ok tt else panic

unfoldable pub push : ℕ → ℕ → FreeList → Run FreeList
unfolding check_new
push hhdm new s = do
  check_new hhdm new
  s ← set_next new null s
  s ← set_prev new s.tail s
  s ← set_next s.tail new s
  ok (record s { tail = new; len = add64 s.len 1 })

unfoldable pub pull : ℕ → ℕ → FreeList → Run FreeList
unfolding check_new
pull hhdm new s = do
  check_new hhdm new
  s ← set_prev new null s
  s ← set_next new s.head s
  s ← set_prev s.head new s
  ok (record s { head = new; len = add64 s.len 1 })

-- The entry behind the head, or what the `FIXME` branch puts there.
unfoldable pub next_of_head : ℕ → FreeList → Run (ℕ × FreeList)
next_of_head hhdm s = do
  e ← load s.head s
  if ltb e.next hhdm
      then (do
        s' ← set_next s.head (add64 s.head frame_size) s
        e' ← load s.head s'
        ok (e'.next, s'))
      else ok (e.next, s)

unfoldable pub claim : ℕ → FreeList → Run (ℕ × FreeList)
unfolding next_of_head
claim hhdm s = do
  (next, s') ← next_of_head hhdm s
  s'' ← set_prev next null s'
  ok (s.head, record s'' { head = next; len = sub64 s''.len 1 })

-- The branch that has found enough frames: it stitches the list over them.
unfoldable pub unlink : ℕ → ℕ → ℕ → FreeList → Run (Option ℕ × FreeList)
unlink frames base current s = do
  b ← load base s
  c ← load current s
  s' ←
      if b.prev == null
      then set_prev c.next null (record s { head = c.next })
      else (do s ← set_next b.prev c.next s; set_prev c.next b.prev s)
  ok (some base, record s' { len = sub64 s'.len frames })

-- The loop of `claim_continuous` and `claim_aligned`, which differ in `aligned`. Its first argument
-- is the rounds that are left; `none` stands for `Err`.
unfoldable pub scan : (ℕ → Bool) → ℕ → ℕ → ℕ → ℕ → ℕ → FreeList → Run (Option ℕ × FreeList)
unfolding unlink
scan aligned frames zero base current count s = ok (none, s)
scan aligned frames (suc rounds) base current count s = elim (count == frames) [
  | true ↦ unlink frames base current s
  | false ↦ do
    c ← load current s
    elim ((add64 current 0x1000 == c.next) && aligned base) [
      | true ↦ scan aligned frames rounds base c.next (add64 count 1) s
      | false ↦ scan aligned frames rounds c.next c.next 1 s
    ]
]

claim_one : ℕ → FreeList → Run (Option ℕ × FreeList)
claim_one hhdm s = do (p, s') ← claim hhdm s; ok (some p, s')

unfoldable pub claim_continuous : ℕ → ℕ → FreeList → Run (Option ℕ × FreeList)
unfolding claim_one scan
claim_continuous hhdm frames s =
    if frames == 1 then claim_one hhdm s else scan (λ _. true) frames s.len s.head s.head 1 s

-- `align` is the size of a page, as `align as usize`.
unfoldable pub claim_aligned : ℕ → ℕ → ℕ → FreeList → Run (Option ℕ × FreeList)
unfolding claim_one scan
claim_aligned hhdm frames align s =
    if frames == 1
    then claim_one hhdm s
    else scan (λ base. bit_and base (sub64 align 1) == 0) frames s.len s.head s.head 1 s
