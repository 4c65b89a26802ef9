-- ===== src/Features/Parse.antt =====
-- `parse_str` on the strings that it reads.
use lsd_limine.Prelude.{
  ℕ, ◌≡◌, refl, true, false, none, some, List, [], ◌∷◌, ◌++◌, map, length, Run, ok, panic, ◌>>=◌,
  ◌==◌,
}
use lsd_limine.Features.{
  BitFlags, Letter, letter_i, letter_m, letter_a, letter_f, letter_d, letter_c, letter_h, Extension,
  zicbom, zicboz, zicsr, zifencei, zihintpause, zawrs, zba, zbb, zbc, zbs, sstc, svadu, svpbmt,
  letter_bit, extension_bit, letter_of, extension_of, same_text, codes, Parser, strip_rv64,
  trim_rv64, set_from_str, parse_char, parse_chars, parse_str,
}

-- The texts of extensions.
unfoldable pub letter_char : Letter → ℕ
letter_char letter_i = b'i'
letter_char letter_m = b'm'
letter_char letter_a = b'a'
letter_char letter_f = b'f'
letter_char letter_d = b'd'
letter_char letter_c = b'c'
letter_char letter_h = b'h'

unfoldable pub extension_name : Extension → List ℕ
extension_name zicbom = codes "zicbom"
extension_name zicboz = codes "zicboz"
extension_name zicsr = codes "zicsr"
extension_name zifencei = codes "zifencei"
extension_name zihintpause = codes "zihintpause"
extension_name zawrs = codes "zawrs"
extension_name zba = codes "zba"
extension_name zbb = codes "zbb"
extension_name zbc = codes "zbc"
extension_name zbs = codes "zbs"
extension_name sstc = codes "sstc"
extension_name svadu = codes "svadu"
extension_name svpbmt = codes "svpbmt"

-- Names, each behind a `_`.
abbrev pub suffix : List Extension → List ℕ
suffix [] = []
suffix (e ∷ es) = b'_' ∷ (extension_name e ++ suffix es)

-- The text of a processor with these letters and names.
abbrev pub isa_string : List Letter → List Extension → List ℕ
isa_string ls es = b'r' ∷ b'v' ∷ b'6' ∷ b'4' ∷ (map letter_char ls ++ suffix es)

extension_of-name : (e : Extension) → extension_of (extension_name e) ≡ some e
unfolding extension_of extension_name same_text
extension_of-name zicbom = refl
extension_of-name zicboz = refl
extension_of-name zicsr = refl
extension_of-name zifencei = refl
extension_of-name zihintpause = refl
extension_of-name zawrs = refl
extension_of-name zba = refl
extension_of-name zbb = refl
extension_of-name zbc = refl
extension_of-name zbs = refl
extension_of-name sstc = refl
extension_of-name svadu = refl
extension_of-name svpbmt = refl

abbrev start : ℕ → Parser
start fl = record { newself = fl; single_char = true; character_buffer = [] }

abbrev named : ℕ → List ℕ → Parser
named fl buffer = record { newself = fl; single_char = false; character_buffer = buffer }

module _ ⦃B : BitFlags⦄ where
  abbrev pub with_letters : ℕ → List Letter → ℕ
  with_letters fl [] = fl
  with_letters fl (l ∷ ls) = with_letters (B.insert fl (letter_bit l)) ls

  abbrev pub with_extensions : ℕ → List Extension → ℕ
  with_extensions fl [] = fl
  with_extensions fl (e ∷ es) = with_extensions (B.insert fl (extension_bit e)) es

  set_from_str-name :
      (fl : ℕ) (e : Extension)
      → set_from_str fl (extension_name e) ≡ ok (B.insert fl (extension_bit e))
  unfolding set_from_str
  set_from_str-name fl e = rw (set_from_str, extension_of-name e) refl

  parse_char-letter :
      (fl : ℕ) (l : Letter)
      → parse_char (letter_char l) (start fl) ≡ ok (start (B.insert fl (letter_bit l)))
  unfolding parse_char letter_of letter_char
  parse_char-letter fl letter_i = refl
  parse_char-letter fl letter_m = refl
  parse_char-letter fl letter_a = refl
  parse_char-letter fl letter_f = refl
  parse_char-letter fl letter_d = refl
  parse_char-letter fl letter_c = refl
  parse_char-letter fl letter_h = refl

  parse_chars-letters :
      (ls : List Letter) (fl : ℕ) (s : List ℕ)
      → parse_chars (map letter_char ls ++ s) (start fl)
        ≡ parse_chars s (start (with_letters fl ls))
  unfolding parse_chars
  parse_chars-letters [] fl s = refl
  parse_chars-letters (l ∷ ls) fl s =
      rw (parse_char-letter fl l) (parse_chars-letters ls (B.insert fl (letter_bit l)) s)

  parse_chars-name :
      (e : Extension) (fl : ℕ) (s : List ℕ)
      → parse_chars (extension_name e ++ s) (named fl [])
        ≡ parse_chars s (named fl (extension_name e))
  unfolding parse_chars parse_char extension_name
  parse_chars-name zicbom fl s = refl
  parse_chars-name zicboz fl s = refl
  parse_chars-name zicsr fl s = refl
  parse_chars-name zifencei fl s = refl
  parse_chars-name zihintpause fl s = refl
  parse_chars-name zawrs fl s = refl
  parse_chars-name zba fl s = refl
  parse_chars-name zbb fl s = refl
  parse_chars-name zbc fl s = refl
  parse_chars-name zbs fl s = refl
  parse_chars-name sstc fl s = refl
  parse_chars-name svadu fl s = refl
  parse_chars-name svpbmt fl s = refl

  abbrev finish : Run Parser → Run ℕ
  finish m = m >>= λ p. set_from_str p.newself p.character_buffer

  finish-suffix :
      (es : List Extension) (e : Extension) (fl : ℕ)
      → finish (parse_chars (suffix es) (named fl (extension_name e)))
        ≡ ok (with_extensions fl (e ∷ es))
  unfolding parse_chars parse_char
  finish-suffix [] e fl = set_from_str-name fl e
  finish-suffix (x ∷ es) e fl =
      rw (set_from_str-name fl e, parse_chars-name x (B.insert fl (extension_bit e)) (suffix es))
        (finish-suffix es x (B.insert fl (extension_bit e)))

  letter_char-other : (l : Letter) → (letter_char l == b'r') ≡ false
  unfolding letter_char
  letter_char-other letter_i = refl
  letter_char-other letter_m = refl
  letter_char-other letter_a = refl
  letter_char-other letter_f = refl
  letter_char-other letter_d = refl
  letter_char-other letter_c = refl
  letter_char-other letter_h = refl

  strip_other : (x : ℕ) (s : List ℕ) → (x == b'r') ≡ false → strip_rv64 (x ∷ s) ≡ none
  unfolding strip_rv64
  strip_other x [] n = refl
  strip_other x (y ∷ []) n = refl
  strip_other x (y ∷ z ∷ []) n = refl
  strip_other x (y ∷ z ∷ w ∷ s) n = rw n refl

  strip-letters :
      (ls : List Letter) (es : List Extension) → strip_rv64 (map letter_char ls ++ suffix es) ≡ none
  unfolding strip_rv64
  strip-letters [] [] = refl
  strip-letters [] (e ∷ es) = strip_other b'_' (extension_name e ++ suffix es) refl
  strip-letters (l ∷ ls) es =
      strip_other (letter_char l) (map letter_char ls ++ suffix es) (letter_char-other l)

  trim-letters :
      (ls : List Letter) (es : List Extension)
      → trim_rv64 (length (isa_string ls es)) (isa_string ls es) ≡ map letter_char ls ++ suffix es
  unfolding trim_rv64 strip_rv64
  trim-letters ls es = rw (trim_rv64, strip-letters ls es) refl

  -- The string of a processor with at least one extension that has a longer name is read back as
  -- the flags of its letters and names, in the order of the string.
  pub parse_str-isa_string :
      (ls : List Letter) (e : Extension) (es : List Extension)
      → parse_str (isa_string ls (e ∷ es)) ≡ ok (with_extensions (with_letters 0 ls) (e ∷ es))
  unfolding parse_str parse_chars parse_char
  parse_str-isa_string ls e es =
      rw
        (
          trim-letters ls (e ∷ es),
          parse_chars-letters ls 0 (suffix (e ∷ es)),
          parse_chars-name e (with_letters 0 ls) (suffix es),
        )
        (finish-suffix es e (with_letters 0 ls))

  -- A string of letters alone, without a longer name behind them, makes the parser panic.
  pub parse_str-panic : (ls : List Letter) → parse_str (isa_string ls []) ≡ panic
  unfolding parse_str parse_chars set_from_str extension_of same_text
  parse_str-panic ls = rw (trim-letters ls [], parse_chars-letters ls 0 []) refl
