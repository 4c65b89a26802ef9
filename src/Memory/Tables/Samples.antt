-- ===== src/Memory/Tables/Samples.antt =====
-- Memory with a root table of Sv48 that has a page of 512 gibibytes, and bit fields by arithmetic.
use lsd_limine.Prelude.{
  ℕ, ◌+◌, ◌-◌, ◌*◌, ◌/◌, ◌%◌, ◌^◌, ◌≤◌, ◌≡◌, refl, true, ◌==◌, if◌then◌else◌, arith, List, [], ◌∷◌,
  some, none, inl, inr, Bool-cases,
}
use native.Mathlib.Nat.{le_trans, mul-le-mul_right, div-mul-le_self, mod-le, mod-le}
use lsd_limine.Memory.Fields.{BitField}
use lsd_limine.Memory.Pmm.{entry, null, Cells, FreeList}
use lsd_limine.Memory.Pmm.Linked.{IsFreeList}
use lsd_limine.Memory.Paging.{bytes, as_page_size, from_usize}
use lsd_limine.Memory.Tables.{is_leaf, get_valid, index, State, current_table}
use lsd_limine.Memory.Tables.Entries.{Permits}
use lsd_limine.Memory.Tables.Walks.{entry_at}
use lsd_limine.Memory.Tables.Translation.{IsMemory, page_bytes}

pub field_le : (x l w : ℕ) → x / 2 ^ l % w * 2 ^ l ≤ x
field_le x l w =
    le_trans (mul-le-mul_right (2 ^ l) (mod-le (x / 2 ^ l) w)) (div-mul-le_self x (2 ^ l))

instance abbrev pub arithmetic_fields : BitField
arithmetic_fields = record {
  get = λ x msb lsb. x / 2 ^ lsb % 2 ^ (msb + 1 - lsb);
  set = λ x msb lsb v.
      x - x / 2 ^ lsb % 2 ^ (msb + 1 - lsb) * 2 ^ lsb + v % 2 ^ (msb + 1 - lsb) * 2 ^ lsb;
  get_bit = λ x i. x / 2 ^ i % 2 == 1;
  set_bit = λ x i b. x - x / 2 ^ i % 2 * 2 ^ i + (if b then 2 ^ i else 0);
  get_lem = λ x msb lsb h k. refl;
  set_lem = λ x msb lsb v h k. omega (arith, field_le x lsb (2 ^ (msb + 1 - lsb)));
  get_bit_lem = λ x i h. refl;
  set_bit_lem = λ x i b h. omega (arith, field_le x i 2);
}

abbrev pub sv48 : ℕ
sv48 = 0xffff800000000000

abbrev pub root : ℕ
root = 0xffff800000001000

abbrev free_cells : Cells
free_cells a =
    if a == 0xffff800000010000
    then some (entry null 0xffff800000011000)
    else if a == 0xffff800000011000
    then some (entry 0xffff800000010000 0xffff800000012000)
    else if a == 0xffff800000012000
    then some (entry 0xffff800000011000 0xffff800000013000)
    else if a == 0xffff800000013000
    then some (entry 0xffff800000012000 0xffff800000014000)
    else if a == 0xffff800000014000
    then some (entry 0xffff800000013000 null)
    else none

abbrev free_list : FreeList
free_list = record {
  head = 0xffff800000010000;
  tail = 0xffff800000014000;
  len = 5;
  cells = free_cells;
}

abbrev pub free_frames : List ℕ
free_frames =
    0xffff800000010000 ∷ 0xffff800000011000 ∷ 0xffff800000012000 ∷ 0xffff800000013000
    ∷ 0xffff800000014000 ∷ []

abbrev pub start : State
start = record { free = free_list; tables = λ a j. if j == 5 then 3 else 0 }

abbrev pub start_levels : ℕ → ℕ
start_levels a = if a == root then 4 else 0

abbrev pub start_slot : ℕ → ℕ × ℕ
start_slot a = (0, 0)

free_list-IsFreeList : IsFreeList sv48 free_list free_frames
free_list-IsFreeList = record {
  offset = omega arith;
  head = refl;
  tail = refl;
  len = refl;
  room = omega arith;
  linked = (refl, (refl, (refl, (refl, (refl, tt)))));
  distinct = (refl, (refl, (refl, (refl, (refl, tt)))));
  frames = (
    (omega arith, omega arith, refl, omega arith),
    (
      (omega arith, omega arith, refl, omega arith),
      (
        (omega arith, omega arith, refl, omega arith),
        (
          (omega arith, omega arith, refl, omega arith),
          ((omega arith, omega arith, refl, omega arith), tt),
        ),
      ),
    ),
  );
}

three-is_leaf : is_leaf 3 ≡ true
unfolding is_leaf get_valid
three-is_leaf = refl

pub page_aligned : 0x80005000 % page_bytes 1 ≡ 0
unfolding bytes as_page_size from_usize
page_aligned = refl

-- The address to be mapped has nothing at the root.
pub root-IsOpen : entry_at start.tables 0x1234567000 4 root ≡ 0
unfolding index from_usize
root-IsOpen = refl

pub start-IsMemory : IsMemory sv48 start_levels start_slot free_frames start
start-IsMemory = record {
  offset = (omega arith, omega arith, refl);
  free = free_list-IsFreeList;
  unused = (refl, (refl, (refl, (refl, (refl, tt)))));
  tables = λ a j h k. elim (Bool-cases (j == 5)) [
    | inl e ↦ rw e (inr (inl three-is_leaf))
    | inr e ↦ rw e (inl refl)
  ];
}

pub read_write : Permits 6
read_write = (0, 3, refl, omega arith, omega arith, omega arith)

pub root-current_table : current_table sv48 1 ≡ root
unfolding current_table
root-current_table = refl
