-- ===== src/Segment/Files/Checksum.antt =====
-- The checksum footer, tables and bitmaps of crates/greplm-core/src/segment.rs, written and
-- read again.
use greplm.Common.{
  ℕ, zero, suc, ◌+◌, ◌-◌, ◌*◌, ◌/◌, ◌%◌, ◌^◌, ◌<◌, ◌≡◌, refl, sym, ap, ◌∙◌, false, inl, inr, some,
  List, [], ◌∷◌, ◌++◌, arith, ltb, Bool-cases, ==_refl, length, length-append, take, drop,
  take_append, drop_append,
}
use mathlib.Core.List.{append-nil}
use greplm.Common.Result.{ok, postcard, ok_or, >>=-eq-ok}
use greplm.Roaring.{Roaring, RoaringLaws}
use greplm.Trigram.{IsBytes}
use greplm.Segment.Files.{
  to_le_bytes, from_le_bytes, append_checksum, verify_checksum, write_bitmap, read_bitmap, Postcard,
  PostcardLaw, encode_table, read_table,
}

pub length-to_le_bytes : (n x : ℕ) → length (to_le_bytes n x) ≡ n
unfolding to_le_bytes
length-to_le_bytes zero x = refl
length-to_le_bytes (suc n) x = omega (arith, length-to_le_bytes n (x / 256))

pub from_le_bytes-to_le_bytes : (x : ℕ) → x < 2 ^ 64 → from_le_bytes (to_le_bytes 8 x) ≡ x
unfolding to_le_bytes from_le_bytes
from_le_bytes-to_le_bytes x h = omega arith

pub to_le_bytes-from_le_bytes :
    (bs : List ℕ) → IsBytes bs → to_le_bytes (length bs) (from_le_bytes bs) ≡ bs
unfolding to_le_bytes from_le_bytes
to_le_bytes-from_le_bytes [] p = refl
to_le_bytes-from_le_bytes (b ∷ bs) p =
    let low : (b + 256 * from_le_bytes bs) % 256 ≡ b = omega arith in
    let high : (b + 256 * from_le_bytes bs) / 256 ≡ from_le_bytes bs = omega arith in
    rw (low, high, to_le_bytes-from_le_bytes bs p.1) refl

take-drop_all : (n : ℕ) (xs : List ℕ) → take n xs ++ drop n xs ≡ xs
take-drop_all zero xs = refl
take-drop_all (suc n) [] = refl
take-drop_all (suc n) (x ∷ xs) = ap (◌∷◌ x) (take-drop_all n xs)

length-drop : (n : ℕ) (xs : List ℕ) → length (drop n xs) ≡ length xs - n
length-drop zero xs = omega arith
length-drop (suc n) [] = omega arith
length-drop (suc n) (x ∷ xs) = omega (arith, length-drop n xs)

IsBytes-drop : (n : ℕ) (xs : List ℕ) → IsBytes xs → IsBytes (drop n xs)
IsBytes-drop zero xs p = p
IsBytes-drop (suc n) [] p = p
IsBytes-drop (suc n) (x ∷ xs) p = IsBytes-drop n xs p.1

module _ (xxh3_64 : List ℕ → ℕ) (word : (bytes : List ℕ) → xxh3_64 bytes < 2 ^ 64) where
  verify_footer :
      (buf footer : List ℕ)
      → length footer ≡ 8
      → from_le_bytes footer ≡ xxh3_64 buf
      → verify_checksum xxh3_64 (buf ++ footer) ≡ ok buf
  unfolding verify_checksum
  verify_footer buf footer eight same =
      let long : ltb (length (buf ++ footer)) 8 ≡ false =
        ground (arith, length-append buf footer) in
      let cut : length (buf ++ footer) - 8 ≡ length buf = omega (arith, length-append buf footer) in
      rw
        (
          long,
          take_append (length (buf ++ footer) - 8) buf footer cut,
          drop_append (length (buf ++ footer) - 8) buf footer cut,
          same,
          ==_refl (xxh3_64 buf),
        )
        refl

  -- If the hash is a 64-bit number, a payload to which its checksum was appended is verified,
  -- and comes back.
  pub verify_checksum-append_checksum :
      (buf : List ℕ) → verify_checksum xxh3_64 (append_checksum xxh3_64 buf) ≡ ok buf
  verify_checksum-append_checksum buf =
      unfold append_checksum in
      verify_footer buf (to_le_bytes 8 (xxh3_64 buf)) (length-to_le_bytes 8 (xxh3_64 buf))
        (from_le_bytes-to_le_bytes (xxh3_64 buf) (word buf))

  footer_of :
      (n : ℕ) (bytes payload : List ℕ)
      → length bytes ≡ n + 8
      → IsBytes bytes
      → xxh3_64 (take n bytes) ≡ from_le_bytes (drop n bytes)
      → take n bytes ≡ payload
      → bytes ≡ append_checksum xxh3_64 payload
  unfolding append_checksum
  footer_of n bytes payload long p same e =
      let eight : length (drop n bytes) ≡ 8 = omega (arith, length-drop n bytes) in
      let footer = to_le_bytes-from_le_bytes (drop n bytes) (IsBytes-drop n bytes p) in
      rw (← e, same) (sym (ap (◌++◌ (take n bytes)) (rw eight at footer) ∙ take-drop_all n bytes))

  -- If a string of bytes is verified, it is the payload that comes back with its checksum
  -- appended: no other footer is accepted.
  pub verify_checksum-eq-ok :
      (bytes : List ℕ) {payload : List ℕ}
      → IsBytes bytes
      → verify_checksum xxh3_64 bytes ≡ ok payload
      → bytes ≡ append_checksum xxh3_64 payload
  unfolding verify_checksum
  verify_checksum-eq-ok bytes {payload} p h =
      let n = length bytes - 8 in
      elim (Bool-cases (ltb (length bytes) 8)) [
        | inl short ↦ absurd (ground (arith, h))
        | inr long ↦
            footer_of n bytes payload (ground (arith, long)) p (ground (arith, h))
              (ground (arith, h))
      ]

  -- A bitmap that was written is read again.
  pub read_bitmap-write_bitmap :
      {r : Roaring}
      → RoaringLaws r
      → (bm : r.Bitmap) → read_bitmap xxh3_64 r (write_bitmap xxh3_64 r bm) ≡ ok bm
  unfolding read_bitmap write_bitmap
  read_bitmap-write_bitmap {r} laws bm =
      rw
        (
          verify_checksum-append_checksum (r.serialize bm),
          ← append-nil (r.serialize bm),
          laws.deserialize-serialize bm [],
        )
        refl

  -- A table that was encoded is read again.
  pub read_table-encode_table :
      {A : Type 0} (codec : Postcard A)
      → PostcardLaw codec
      → (rows : A) {bytes : List ℕ} → encode_table codec xxh3_64 rows ≡ ok bytes
      → read_table codec xxh3_64 bytes ≡ ok rows
  unfolding read_table encode_table
  read_table-encode_table codec law rows {bytes} h =
      let (buf, encoded, e) = >>=-eq-ok (ok_or (codec.to_allocvec rows) postcard) _ h in
      let same : append_checksum xxh3_64 buf ≡ bytes = cc e in
      let known : codec.to_allocvec rows ≡ some buf = ground arith in
      rw (← same, verify_checksum-append_checksum buf, law rows buf known) refl
