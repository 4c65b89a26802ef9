-- ===== src/Features.antt =====
-- The extensions of the processor, `CpuData` of LSD/src/lib.rs, from the device tree's string. A
-- string is the list of its characters' code points; a `CpuData` is its bits.
pub mod Parse
mod Tests
use Prim.Native.Char.{code}
use Prim.Native.String.{String}
use lsd_limine.Prelude.{
  ℕ, zero, suc, ◌≡◌, Bool, true, false, ◌&&◌, Option, none, some, List, [], ◌∷◌, ◌++◌, ◌==◌,
  if◌then◌else◌, length, Run, ok, panic, ◌>>=◌, bit_or, bit_and,
}

-- The code points of a text. `String` has its own `[]` and `∷`.
abbrev pub codes : String → List ℕ
codes String.[] = []
codes (String.◌∷◌ c s) = code c ∷ codes s

-- What is used of the bitflags crate: `set(flag, true)`, on bits.
pub record BitFlags : Type 0 where
  pub insert : ℕ → ℕ → ℕ
  pub insert_lem : (a b : ℕ) → insert a b ≡ bit_or a b

-- The extensions that a single letter names, and those with longer names.
pub data Letter : Type 0 where
  letter_i letter_m letter_a letter_f letter_d letter_c letter_h : Letter

pub data Extension : Type 0 where
  zicbom zicboz zicsr zifencei zihintpause zawrs zba zbb zbc zbs sstc svadu svpbmt : Extension

unfoldable pub letter_bit : Letter → ℕ
letter_bit letter_i = 0b1
letter_bit letter_m = 0b10
letter_bit letter_a = 0b100
letter_bit letter_f = 0b1000
letter_bit letter_d = 0b10000
letter_bit letter_c = 0b100000
letter_bit letter_h = 0b10000000000000000000

unfoldable pub extension_bit : Extension → ℕ
extension_bit zicbom = 0b1000000
extension_bit zicboz = 0b10000000
extension_bit zicsr = 0b100000000
extension_bit zifencei = 0b1000000000
extension_bit zihintpause = 0b10000000000
extension_bit zawrs = 0b100000000000
extension_bit zba = 0b1000000000000
extension_bit zbb = 0b10000000000000
extension_bit zbc = 0b100000000000000
extension_bit zbs = 0b1000000000000000
extension_bit sstc = 0b10000000000000000
extension_bit svadu = 0b100000000000000000
extension_bit svpbmt = 0b1000000000000000000

-- The arms of the first match of `parse_str` and of the match of `set_from_str`.
unfoldable pub letter_of : ℕ → Option Letter
letter_of x =
    if x == b'i'
    then some letter_i
    else if x == b'm'
    then some letter_m
    else if x == b'a'
    then some letter_a
    else if x == b'f'
    then some letter_f
    else if x == b'd'
    then some letter_d
    else if x == b'c'
    then some letter_c
    else if x == b'h'
    then some letter_h
    else none

unfoldable pub same_text : List ℕ → List ℕ → Bool
same_text [] [] = true
same_text [] (y ∷ ys) = false
same_text (x ∷ xs) [] = false
same_text (x ∷ xs) (y ∷ ys) = (x == y) && same_text xs ys

unfoldable pub extension_of : List ℕ → Option Extension
unfolding same_text
extension_of s =
    if same_text s (codes "zicbom")
    then some zicbom
    else if same_text s (codes "zicboz")
    then some zicboz
    else if same_text s (codes "zicsr")
    then some zicsr
    else if same_text s (codes "zifencei")
    then some zifencei
    else if same_text s (codes "zihintpause")
    then some zihintpause
    else if same_text s (codes "zawrs")
    then some zawrs
    else if same_text s (codes "zba")
    then some zba
    else if same_text s (codes "zbb")
    then some zbb
    else if same_text s (codes "zbc")
    then some zbc
    else if same_text s (codes "zbs")
    then some zbs
    else if same_text s (codes "sstc")
    then some sstc
    else if same_text s (codes "svadu")
    then some svadu
    else if same_text s (codes "svpbmt")
    then some svpbmt
    else none

-- The local variables of `parse_str`.
pub record Parser : Type 0 where
  pub newself : ℕ
  pub single_char : Bool
  pub character_buffer : List ℕ

-- The prefix `rv64`, once.
unfoldable pub strip_rv64 : List ℕ → Option (List ℕ)
strip_rv64 (x ∷ y ∷ z ∷ w ∷ s) =
    if (x == b'r') && (y == b'v') && (z == b'6') && (w == b'4') then some s else none
strip_rv64 _ = none

-- `trim_start_matches`, which takes the prefix off as often as it is there.
unfoldable pub trim_rv64 : ℕ → List ℕ → List ℕ
trim_rv64 zero s = s
trim_rv64 (suc rounds) s = elim (strip_rv64 s) [ none ↦ s | some r ↦ trim_rv64 rounds r ]

module _ ⦃B : BitFlags⦄ where
  unfoldable pub set_from_str : ℕ → List ℕ → Run ℕ
  set_from_str self string = elim (extension_of string) [
    | none ↦ panic
    | some e ↦ ok (B.insert self (extension_bit e))
  ]

  -- One round of the loop.
  unfoldable pub parse_char : ℕ → Parser → Run Parser
  unfolding set_from_str
  parse_char character p = elim p.single_char [
    | true ↦
        if character == b'_'
        then ok (record p { single_char = false })
        else elim (letter_of character) [
          | none ↦ panic
          | some l ↦ ok (record p { newself = B.insert p.newself (letter_bit l) })
        ]
    | false ↦
        if character == b'_'
        then (do
          flags ← set_from_str p.newself p.character_buffer
          ok (record p { newself = flags; character_buffer = [] }))
        else ok (record p { character_buffer = p.character_buffer ++ character ∷ [] })
  ]

  unfoldable pub parse_chars : List ℕ → Parser → Run Parser
  parse_chars [] p = ok p
  parse_chars (x ∷ s) p = do p ← parse_char x p; parse_chars s p

  unfoldable pub parse_str : List ℕ → Run ℕ
  unfolding parse_chars set_from_str
  parse_str string = do
    p ←
        parse_chars (trim_rv64 (length string) string)
          (record { newself = 0; single_char = true; character_buffer = [] })
    set_from_str p.newself p.character_buffer
