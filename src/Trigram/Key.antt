-- ===== src/Trigram/Key.antt =====
-- `key_of` and `tri_of` of crates/greplm-core/src/trigram.rs, and the order of keys.
use greplm.Common.{ℕ, ◌+◌, ◌*◌, ◌%◌, ◌^◌, ◌<◌, ◌≡◌, ◌↔◌, ◌⊎◌, ◌∙◌, arith, ◌==◌}
use greplm.Common.Bits.{bit_or-shift}
use greplm.Trigram.{Trigram, IsTrigram, key_of, tri_of, tri_eq}

-- The key is the big-endian number of the three bytes.
pub key_of_lem : (t : Trigram) → IsTrigram t → key_of t ≡ t.0 * 65536 + t.1 * 256 + t.2
unfolding key_of
key_of_lem (a, b, c) h =
    let high : a * 2 ^ 16 % 2 ^ 32 ≡ a * 2 ^ 16 = omega arith in
    let mid : b * 2 ^ 8 % 2 ^ 32 ≡ b * 2 ^ 8 = omega arith in
    let joined : a * 2 ^ 16 + b * 2 ^ 8 ≡ (a * 256 + b) * 2 ^ 8 = omega arith in
    rw (high, mid, bit_or-shift 16 a (b * 2 ^ 8) (omega arith), joined)
      (bit_or-shift 8 (a * 256 + b) c (omega arith) ∙ omega arith)

pub key_of-lt : (t : Trigram) → IsTrigram t → key_of t < 16777216
key_of-lt t h = omega (arith, key_of_lem t h)

-- `tri_of` undoes `key_of` on every trigram of three bytes.
pub tri_of-key_of : (t : Trigram) → IsTrigram t → tri_of (key_of t) ≡ t
unfolding tri_of
tri_of-key_of (a, b, c) h = rw (key_of_lem (a, b, c) h) (ground arith)

pub IsTrigram-tri_of : (k : ℕ) → IsTrigram (tri_of k)
unfolding tri_of
IsTrigram-tri_of k = omega arith

-- `key_of` undoes `tri_of` on every key below 2^24.
pub key_of-tri_of : (k : ℕ) → k < 16777216 → key_of (tri_of k) ≡ k
key_of-tri_of k h = key_of_lem (tri_of k) (IsTrigram-tri_of k) ∙ (unfold tri_of in omega arith)

pub key_of-tri_eq :
    (s t : Trigram) → IsTrigram s → IsTrigram t → (key_of s == key_of t) ≡ tri_eq s t
key_of-tri_eq (a, b, c) (x, y, z) p q =
    rw (key_of_lem (a, b, c) p, key_of_lem (x, y, z) q) (ground arith)

-- The order of byte strings of length 3, which the term dictionary asks for.
abbrev pub LexLt : Trigram → Trigram → Type 0
LexLt (a, b, c) (x, y, z) = (a < x) ⊎ ((a ≡ x) × ((b < y) ⊎ ((b ≡ y) × (c < z))))

-- The keys of trigrams of three bytes are ordered exactly as the trigrams are in the order of
-- byte strings.
pub key_of-lt-iff_LexLt :
    (s t : Trigram) → IsTrigram s → IsTrigram t → (key_of s < key_of t) ↔ LexLt s t
key_of-lt-iff_LexLt (a, b, c) (x, y, z) p q =
    rw (key_of_lem (a, b, c) p, key_of_lem (x, y, z) q) (ground arith)
