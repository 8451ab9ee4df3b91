-- ===== src/Trigram.antt =====
-- crates/greplm-core/src/trigram.rs: trigrams, their keys, and the extraction of the distinct
-- trigrams of a document through the thread-local bitset `SEEN`.
pub mod Key
pub mod Seen
pub mod Extract
pub mod Query
use greplm.Common.{
  ℕ, ◌*◌, ◌/◌, ◌%◌, ◌^◌, ◌<◌, bit_and, bit_or, Bool, true, false, ◌&&◌, ◌||◌, List, [], ◌∷◌, ◌++◌,
  map, ◌==◌, ltb, if◌then◌else◌, length,
}
use greplm.Common.Bits.{shl, shr}
use greplm.Common.Sort.{sort}

-- `type Trigram = [u8; 3]`
abbrev pub Trigram : Type 0
Trigram = ℕ × ℕ × ℕ

abbrev pub IsTrigram : Trigram → Type 0
IsTrigram (a, b, c) = (a < 256) × (b < 256) × (c < 256)

abbrev pub IsBytes : List ℕ → Type 0
IsBytes [] = Unit {0}
IsBytes (x ∷ xs) = (x < 256) × IsBytes xs

-- the shifts and the `|` are those of `u32`
unfoldable pub key_of : Trigram → ℕ
key_of (a, b, c) = bit_or (bit_or (shl 32 a 16) (shl 32 b 8)) c

-- `as u8` keeps the low byte
unfoldable pub tri_of : ℕ → Trigram
tri_of key = (shr key 16 % 256, shr key 8 % 256, key % 256)

abbrev pub tri_eq : Trigram → Trigram → Bool
tri_eq (a, b, c) (x, y, z) = a == x && (b == y && c == z)

-- `data.windows(3)`
unfoldable pub windows : List ℕ → List Trigram
windows (x ∷ y ∷ z ∷ rest) = (x, y, z) ∷ windows (y ∷ z ∷ rest)
windows _ = []

-- `Vec::contains`
unfoldable pub contains : Trigram → List Trigram → Bool
contains t [] = false
contains t (u ∷ us) = tri_eq t u || contains t us

-- `SEEN`, the boxed slice of 2^18 words of 64 bits, by the index of the word. A key is below 2^24,
-- so every index `key >> 6` lies in the slice.
abbrev pub Seen : Type 0
Seen = ℕ → ℕ

abbrev pub fresh : Seen
fresh _ = 0

unfoldable pub write : Seen → ℕ → ℕ → Seen
write seen word v w = if w == word then v else seen w

-- one round of the loop over the windows
unfoldable pub visit : Seen × List ℕ → Trigram → Seen × List ℕ
unfolding write
visit (seen, keys) w =
    let k = key_of w in
    let word = shr k 6 in
    let bit = 2 ^ bit_and k 63 in
    if bit_and (seen word) bit == 0
    then (write seen word (bit_or (seen word) bit), keys ++ k ∷ [])
    else (seen, keys)

unfoldable pub scan : Seen × List ℕ → List Trigram → Seen × List ℕ
scan s [] = s
scan s (w ∷ ws) = scan (visit s w) ws

-- the loop that zeroes the word of every key
unfoldable pub clear : List ℕ → Seen → Seen
unfolding write
clear [] seen = seen
clear (k ∷ keys) seen = clear keys (write seen (shr k 6) 0)

-- `extract` on a thread whose bitset is `seen`: the trigrams, and the bitset that is left
unfoldable pub extract_with : Seen → List ℕ → List Trigram × Seen
unfolding scan visit clear key_of tri_of windows sort
extract_with seen content =
    if ltb (length content) 3
    then ([], seen)
    else (let (marked, keys) = scan (seen, []) (windows content) in
        (map tri_of (sort keys), clear keys marked))

-- `extract` from the initial bitset; `Extract.extract_with-fresh` is why later calls agree with it
unfoldable pub extract : List ℕ → List Trigram
unfolding extract_with
extract content = (extract_with fresh content).0
