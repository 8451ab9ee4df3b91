-- ===== src/Trigram/Seen.antt =====
-- The bitset `SEEN` of crates/greplm-core/src/trigram.rs during a call of `extract`.
use greplm.Common.{
  ℕ, ◌/◌, ◌%◌, ◌^◌, ◌≡◌, refl, fun_ext, ◌∙◌, bit_or, false, Bool, ◌||◌, inl, inr, List, [], ◌∷◌,
  ◌++◌, map, arith, ◌==◌, if◌then◌else◌, Bool-cases,
}
use greplm.Common.Bits.{
  test_bit, test_bit-bit_or, test_bit-pow, test_bit-le-one, bit_and_mask, bit_and-pow-eq_zero,
  zero-test_bit,
}
use greplm.Common.Member.{elem}
use greplm.Common.Sort.{IsDistinct}
use greplm.Trigram.{Trigram, Seen, fresh, key_of, visit, scan, clear}

-- The bit of a key.
pub marked : Seen → ℕ → ℕ
marked seen k = test_bit (seen (k / 64)) (k % 64)

-- Some key lies in the word.
pub touches : ℕ → List ℕ → Bool
touches w [] = false
touches w (k ∷ ks) = w == k / 64 || touches w ks

touches-snoc : (w k : ℕ) (ks : List ℕ) → touches w (ks ++ k ∷ []) ≡ (touches w ks || w == k / 64)
unfolding touches
touches-snoc w k [] = ground arith
touches-snoc w k (j ∷ ks) = ground (arith, touches-snoc w k ks)

elem-snoc : (x k : ℕ) (ks : List ℕ) → elem x (ks ++ k ∷ []) ≡ (elem x ks || x == k)
unfolding elem
elem-snoc x k [] = ground arith
elem-snoc x k (j ∷ ks) = ground (arith, elem-snoc x k ks)

IsDistinct-snoc :
    (k : ℕ) (ks : List ℕ) → elem k ks ≡ false → IsDistinct ks → IsDistinct (ks ++ k ∷ [])
unfolding elem
IsDistinct-snoc k [] h d = (refl, tt)
IsDistinct-snoc k (j ∷ ks) h d =
    (elem-snoc j k ks ∙ ground arith, IsDistinct-snoc k ks (ground arith) d.1)

-- The marked bits are those of the collected keys, no key is collected twice, and a word with no
-- collected key is zero.
pub record IsMarked (seen : Seen) (keys : List ℕ) : Type 0 where
  pub bits : (k : ℕ) → marked seen k ≡ (if elem k keys then 1 else 0)
  pub distinct : IsDistinct keys
  pub rest : (w : ℕ) → touches w keys ≡ false → seen w ≡ 0

pub fresh-IsMarked : IsMarked fresh []
unfolding marked elem
fresh-IsMarked = record { bits = λ k. zero-test_bit (k % 64); distinct = tt; rest = λ w h. refl }

-- one round, with the masked and shifted forms of the source read as quotient and remainder
abbrev mark : Seen → ℕ → Seen
mark seen k w = if w == k / 64 then bit_or (seen (k / 64)) (2 ^ (k % 64)) else seen w

visit_lem :
    (seen : Seen) (keys : List ℕ) (t : Trigram)
    → visit (seen, keys) t ≡ (
        if marked seen (key_of t) == 0
        then (mark seen (key_of t), keys ++ key_of t ∷ [])
        else (seen, keys))
unfolding visit marked
visit_lem seen keys t =
    rw (bit_and_mask 6 (key_of t), bit_and-pow-eq_zero (seen (key_of t / 64)) (key_of t % 64))

marked-mark :
    (seen : Seen) (k j : ℕ)
    → marked seen k ≡ 0
    → marked (mark seen k) j ≡ (if j == k then 1 else marked seen j)
unfolding marked
marked-mark seen k j h = elim (Bool-cases (j / 64 == k / 64)) [
  | inl same ↦
      rw
        (
          same,
          test_bit-bit_or (seen (k / 64)) (2 ^ (k % 64)) (j % 64),
          test_bit-pow (k % 64) (j % 64),
        )
        (ground (arith, test_bit-le-one (seen (k / 64)) (j % 64)))
  | inr other ↦ rw other (ground arith)
]

visit-IsMarked :
    (seen : Seen) (keys : List ℕ) (t : Trigram)
    → IsMarked seen keys
    → IsMarked (visit (seen, keys) t).0 (visit (seen, keys) t).1
visit-IsMarked seen keys t m = elim (Bool-cases (marked seen (key_of t) == 0)) [
  | inr old ↦ rw (visit_lem seen keys t, old) m
  | inl new ↦
      let k = key_of t in
      let absent : elem k keys ≡ false = ground (arith, m.bits k) in
      rw (visit_lem seen keys t, new)
        (record {
          bits = λ j.
              marked-mark seen k j (ground arith) ∙ ground (arith, m.bits j, elem-snoc j k keys);
          distinct = IsDistinct-snoc k keys absent m.distinct;
          rest = λ w h. ground (arith, m.rest w, touches-snoc w k keys);
        })
]

pub scan-IsMarked :
    (s : Seen × List ℕ) (ws : List Trigram)
    → IsMarked s.0 s.1
    → IsMarked (scan s ws).0 (scan s ws).1
unfolding scan
scan-IsMarked s [] m = m
scan-IsMarked (seen, keys) (w ∷ ws) m =
    scan-IsMarked (visit (seen, keys) w) ws (visit-IsMarked seen keys w m)

-- The keys that a scan has collected: those that it began with, and those of the windows.
elem-visit :
    (seen : Seen) (keys : List ℕ) (t : Trigram) (j : ℕ)
    → IsMarked seen keys
    → elem j (visit (seen, keys) t).1 ≡ (elem j keys || j == key_of t)
elem-visit seen keys t j m = elim (Bool-cases (marked seen (key_of t) == 0)) [
  | inr old ↦ rw (visit_lem seen keys t, old) (ground (arith, m.bits (key_of t), m.bits j))
  | inl new ↦ rw (visit_lem seen keys t, new) (elem-snoc j (key_of t) keys)
]

pub elem-scan :
    (seen : Seen) (keys : List ℕ) (ws : List Trigram) (j : ℕ)
    → IsMarked seen keys
    → elem j (scan (seen, keys) ws).1 ≡ (elem j keys || elem j (map key_of ws))
unfolding scan elem
elem-scan seen keys [] j m = ground arith
elem-scan seen keys (w ∷ ws) j m =
    let (seen', keys') = visit (seen, keys) w in
    elem-scan seen' keys' ws j (visit-IsMarked seen keys w m)
    ∙ ground (arith, elem-visit seen keys w j m)

-- Zeroing the word of every key clears the words that the keys touch and no other.
clear_lem :
    (keys : List ℕ) (seen : Seen) (w : ℕ)
    → clear keys seen w ≡ (if touches w keys then 0 else seen w)
unfolding clear touches
clear_lem [] seen w = refl
clear_lem (k ∷ keys) seen w =
    clear_lem keys (λ v. if v == k / 64 then 0 else seen v) w ∙ ground arith

-- After the pass over its keys the bitset is as on the first call.
pub clear-eq-fresh : (seen : Seen) (keys : List ℕ) → IsMarked seen keys → clear keys seen ≡ fresh
clear-eq-fresh seen keys m = fun_ext λ w. clear_lem keys seen w ∙ ground (arith, m.rest w)
