-- ===== src/Features/Tests.antt =====
-- The string of a processor with two letters and two names.
use lsd_limine.Prelude.{◌≡◌, [], ◌∷◌, ok, refl, bit_or}
use lsd_limine.Features.{BitFlags, letter_i, letter_m, zicsr, svpbmt, parse_str}
use lsd_limine.Features.Parse.{isa_string, with_letters, with_extensions, parse_str-isa_string}

instance abbrev bits_as_flags : BitFlags
bits_as_flags = record { insert = bit_or; insert_lem = λ a b. refl }

parse_str-isa_string_example :
    parse_str (isa_string (letter_i ∷ letter_m ∷ []) (zicsr ∷ svpbmt ∷ []))
    ≡ ok (with_extensions (with_letters 0 (letter_i ∷ letter_m ∷ [])) (zicsr ∷ svpbmt ∷ []))
parse_str-isa_string_example = parse_str-isa_string (letter_i ∷ letter_m ∷ []) zicsr (svpbmt ∷ [])
