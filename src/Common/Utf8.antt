-- ===== src/Common/Utf8.antt =====
-- Which byte strings are UTF-8: `std::str::from_utf8` of the standard library, as an automaton over
-- the bytes, and the ASCII operations on them.
use Prim.Native.Nat.{ℕ, ◌+◌}
use mathlib.Core.Path.{◌≡◌, refl, ap, ◌∙◌}
use mathlib.Core.Bool.{Bool, true, false, ◌&&◌, ◌||◌}
use mathlib.Core.List.{List, [], ◌∷◌, map}
use mathlib.Core.Option.{Option, none, some}
use native.Mathlib.Omega.{arith}
use greplm.Common.Tests.{leb, ltb, ◌==◌, if◌then◌else◌}

-- What must follow: nothing, some continuation bytes, or a restricted one first.
pub data Utf8 : Type 0 where
  start one two three after_e0 after_ed after_f0 after_f4 : Utf8

abbrev pub within : ℕ → ℕ → ℕ → Bool
within lo hi b = leb lo b && leb b hi

unfoldable pub first_byte : ℕ → Option Utf8
first_byte b =
    if ltb b 0x80
    then some start
    else if within 0xC2 0xDF b
    then some one
    else if b == 0xE0
    then some after_e0
    else if b == 0xED
    then some after_ed
    else if within 0xE1 0xEF b
    then some two
    else if b == 0xF0
    then some after_f0
    else if within 0xF1 0xF3 b
    then some three
    else if b == 0xF4
    then some after_f4
    else none

abbrev pub expect : Bool → Utf8 → Option Utf8
expect true s = some s
expect false s = none

unfoldable pub next_byte : Utf8 → ℕ → Option Utf8
unfolding first_byte
next_byte start b = first_byte b
next_byte one b = expect (within 0x80 0xBF b) start
next_byte two b = expect (within 0x80 0xBF b) one
next_byte three b = expect (within 0x80 0xBF b) two
next_byte after_e0 b = expect (within 0xA0 0xBF b) one
next_byte after_ed b = expect (within 0x80 0x9F b) one
next_byte after_f0 b = expect (within 0x90 0xBF b) two
next_byte after_f4 b = expect (within 0x80 0x8F b) two

abbrev pub is_start : Utf8 → Bool
is_start start = true
is_start _ = false

unfoldable pub is_utf8_from : Option Utf8 → List ℕ → Bool
unfolding next_byte
is_utf8_from none bs = false
is_utf8_from (some s) [] = is_start s
is_utf8_from (some s) (b ∷ bs) = is_utf8_from (next_byte s b) bs

unfoldable pub is_utf8 : List ℕ → Bool
unfolding is_utf8_from
is_utf8 bs = is_utf8_from (some start) bs

-- `std::str::from_utf8(b).ok()`
abbrev pub from_utf8 : List ℕ → Option (List ℕ)
from_utf8 bs = if is_utf8 bs then some bs else none

abbrev pub is_ascii_uppercase : ℕ → Bool
is_ascii_uppercase b = leb b'A' b && leb b b'Z'

abbrev pub is_ascii_lowercase : ℕ → Bool
is_ascii_lowercase b = leb b'a' b && leb b b'z'

abbrev pub is_ascii_digit : ℕ → Bool
is_ascii_digit b = leb b'0' b && leb b b'9'

abbrev pub is_ascii_alphanumeric : ℕ → Bool
is_ascii_alphanumeric b = is_ascii_uppercase b || is_ascii_lowercase b || is_ascii_digit b

unfoldable pub to_ascii_lowercase : ℕ → ℕ
to_ascii_lowercase b = if is_ascii_uppercase b then b + 32 else b

-- `make_ascii_lowercase`
abbrev pub ascii_lower : List ℕ → List ℕ
ascii_lower = map to_ascii_lowercase

next_byte-to_ascii_lowercase :
    (s : Utf8) (b : ℕ) → next_byte s (to_ascii_lowercase b) ≡ next_byte s b
unfolding next_byte to_ascii_lowercase
next_byte-to_ascii_lowercase start b = ground arith
next_byte-to_ascii_lowercase one b = ground arith
next_byte-to_ascii_lowercase two b = ground arith
next_byte-to_ascii_lowercase three b = ground arith
next_byte-to_ascii_lowercase after_e0 b = ground arith
next_byte-to_ascii_lowercase after_ed b = ground arith
next_byte-to_ascii_lowercase after_f0 b = ground arith
next_byte-to_ascii_lowercase after_f4 b = ground arith

is_utf8_from-ascii_lower :
    (o : Option Utf8) (bs : List ℕ) → is_utf8_from o (ascii_lower bs) ≡ is_utf8_from o bs
unfolding is_utf8_from
is_utf8_from-ascii_lower none bs = refl
is_utf8_from-ascii_lower (some s) [] = refl
is_utf8_from-ascii_lower (some s) (b ∷ bs) =
    ap (λ o. is_utf8_from o (ascii_lower bs)) (next_byte-to_ascii_lowercase s b)
    ∙ is_utf8_from-ascii_lower (next_byte s b) bs

-- Lowering the case of ASCII letters keeps a string a string.
pub is_utf8-ascii_lower : (bs : List ℕ) → is_utf8 (ascii_lower bs) ≡ is_utf8 bs
unfolding is_utf8
is_utf8-ascii_lower bs = is_utf8_from-ascii_lower (some start) bs
