-- ===== src/Segment/Files.antt =====
-- crates/greplm-core/src/segment.rs: the checksum footer, encoded tables and bitmaps, as byte
-- strings. The hash function of the crate xxhash_rust and the encoder of the crate postcard are
-- parameters.
pub mod Checksum
use greplm.Common.{
  ℕ, zero, suc, ◌+◌, ◌-◌, ◌*◌, ◌/◌, ◌%◌, ◌≡◌, Bool, not, Option, some, List, [], ◌∷◌, ◌++◌, ◌==◌,
  ltb, if◌then◌else◌, length, take, drop,
}
use greplm.Common.Result.{Result, ok, err, postcard, corrupt, other, ok_or, ◌>>=◌}
use greplm.Roaring.{Roaring}

-- `u64::to_le_bytes` for 8 bytes
unfoldable pub to_le_bytes : ℕ → ℕ → List ℕ
to_le_bytes zero x = []
to_le_bytes (suc n) x = x % 256 ∷ to_le_bytes n (x / 256)

unfoldable pub from_le_bytes : List ℕ → ℕ
from_le_bytes [] = 0
from_le_bytes (b ∷ bs) = b + 256 * from_le_bytes bs

module _ (xxh3_64 : List ℕ → ℕ) where
  unfoldable pub append_checksum : List ℕ → List ℕ
  unfolding to_le_bytes
  append_checksum buf = buf ++ to_le_bytes 8 (xxh3_64 buf)

  unfoldable pub verify_checksum : List ℕ → Result (List ℕ)
  unfolding from_le_bytes
  verify_checksum bytes =
      if ltb (length bytes) 8
      then err corrupt
      else (let payload = take (length bytes - 8) bytes in
          let footer = drop (length bytes - 8) bytes in
          if not (xxh3_64 payload == from_le_bytes footer) then err corrupt else ok payload)

  unfoldable pub write_bitmap : (r : Roaring) → r.Bitmap → List ℕ
  unfolding append_checksum
  write_bitmap r bm = append_checksum (r.serialize bm)

  unfoldable pub read_bitmap : (r : Roaring) → List ℕ → Result r.Bitmap
  unfolding verify_checksum
  read_bitmap r bytes = do
    payload ← verify_checksum bytes
    ok_or (r.deserialize_from payload) corrupt

-- `postcard::to_allocvec` and `postcard::from_bytes` at one type
pub record Postcard (A : Type 0) : Type 0 where
  pub to_allocvec : A → Option (List ℕ)
  pub from_bytes : List ℕ → Option A

-- What is encoded is decoded again.
abbrev pub PostcardLaw : {A : Type 0} → Postcard A → Type 0
PostcardLaw {A} c =
    (x : A) (bytes : List ℕ) → c.to_allocvec x ≡ some bytes → c.from_bytes bytes ≡ some x

module _ {A : Type 0} (codec : Postcard A) (xxh3_64 : List ℕ → ℕ) where
  unfoldable pub encode_table : A → Result (List ℕ)
  unfolding append_checksum
  encode_table rows = do
    buf ← ok_or (codec.to_allocvec rows) postcard
    ok (append_checksum xxh3_64 buf)

  unfoldable pub read_table : List ℕ → Result A
  unfolding verify_checksum
  read_table bytes = do
    payload ← verify_checksum xxh3_64 bytes
    ok_or (codec.from_bytes payload) postcard
