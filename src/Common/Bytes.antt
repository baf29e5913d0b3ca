-- ===== src/Common/Bytes.antt =====
-- Rust's `str` and `[u8]` as lists of byte values.
use Prim.Native.Nat.{ℕ, zero, suc}
use Prim.Native.Char.{code}
use Prim.Native.String.{String}
use mathlib.Core.Path.{◌≡◌, refl}
use mathlib.Core.Bool.{Bool, true, false, ◌&&◌, ◌||◌}
use mathlib.Core.Option.{Option, none, some}
use mathlib.Core.List.{List, [], ◌∷◌}
use native.Mathlib.Omega.{arith}
use market_aggregator.Common.Tests.{ltb, leb, ◌==◌, if◌then◌else◌}

abbrev pub Text : Type 0
Text = List ℕ

-- The bytes of an ASCII literal.
abbrev pub codes : String → Text
codes String.[] = []
codes (String.◌∷◌ c s) = code c ∷ codes s

-- `str == str`.
abbrev pub text_eqb : Text → Text → Bool
text_eqb [] [] = true
text_eqb [] (b ∷ bs) = false
text_eqb (a ∷ as') [] = false
text_eqb (a ∷ as') (b ∷ bs) = a == b && text_eqb as' bs

pub text_eqb_sound : (s t : Text) → text_eqb s t ≡ true → s ≡ t
text_eqb_sound [] [] h = refl
text_eqb_sound [] (b ∷ bs) h = ground arith
text_eqb_sound (a ∷ s) [] h = ground arith
text_eqb_sound (a ∷ s) (b ∷ t) h = ground (arith, text_eqb_sound s t)

pub text_eqb_refl : (s : Text) → text_eqb s s ≡ true
text_eqb_refl [] = refl
text_eqb_refl (a ∷ s) = ground (arith, text_eqb_refl s)

-- `std::str::from_utf8`: how many continuation bytes are due, and the range of the next one.
abbrev pub Due : Type 0
Due = ℕ × ℕ × ℕ

abbrev pub between : ℕ → ℕ → ℕ → Bool
between lo hi b = leb lo b && leb b hi

-- The first byte of a character.
abbrev pub lead_byte : ℕ → Option Due
lead_byte b =
    if ltb b 0x80
    then some (0, 0x80, 0xbf)
    else if between 0xc2 0xdf b
    then some (1, 0x80, 0xbf)
    else if b == 0xe0
    then some (2, 0xa0, 0xbf)
    else if between 0xe1 0xec b || between 0xee 0xef b
    then some (2, 0x80, 0xbf)
    else if b == 0xed
    then some (2, 0x80, 0x9f)
    else if b == 0xf0
    then some (3, 0x90, 0xbf)
    else if between 0xf1 0xf3 b
    then some (3, 0x80, 0xbf)
    else if b == 0xf4
    then some (3, 0x80, 0x8f)
    else none

abbrev pub next_byte : Due → ℕ → Option Due
next_byte (zero, lo, hi) b = lead_byte b
next_byte (suc n, lo, hi) b = if between lo hi b then some (n, 0x80, 0xbf) else none

utf8_from : Due → Text → Bool
utf8_from (n, lo, hi) [] = n == 0
utf8_from due (b ∷ bs) = elim (next_byte due b) [ none ↦ false | some due' ↦ utf8_from due' bs ]

unfoldable pub utf8_valid : Text → Bool
unfolding utf8_from
utf8_valid bytes = utf8_from (0, 0x80, 0xbf) bytes
