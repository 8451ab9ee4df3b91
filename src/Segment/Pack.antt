-- ===== src/Segment/Pack.antt =====
-- `pack_entry`, `unpack_offset` and `unpack_card` of crates/greplm-core/src/segment.rs.
use greplm.Common.{ℕ, ◌+◌, ◌*◌, ◌%◌, ◌^◌, ◌<◌, ◌≡◌, ◌∙◌, min, bit_or, arith, ltb, if◌then◌else◌}
use greplm.Common.Bits.{bit_or-shift, bit_and_mask}
use greplm.Common.Result.{ok, err, other}
use greplm.Segment.{offset_mask, card_cap, pack_entry, unpack_offset, unpack_card}

packed :
    (o c : ℕ)
    → o < 2 ^ 40
    → bit_or (min c card_cap * 2 ^ 40 % 2 ^ 64) o ≡ min c card_cap * 2 ^ 40 + o
packed o c h =
    let fits : min c card_cap * 2 ^ 40 % 2 ^ 64 ≡ min c card_cap * 2 ^ 40 = omega arith in
    rw fits (bit_or-shift 40 (min c card_cap) o h)

-- What `pack_entry` computes, on both branches.
pub pack_entry_lem :
    (offset cardinality : ℕ)
    → pack_entry offset cardinality ≡ (
        if ltb offset_mask offset
        then err other
        else ok (min cardinality card_cap * 2 ^ 40 + offset))
unfolding pack_entry
pack_entry_lem offset cardinality = ground (arith, packed offset cardinality)

-- If an offset and a cardinality are packed, the value gives back the offset and the
-- cardinality up to the cap, and fits in 64 bits.
pub unpack-pack_entry :
    (offset cardinality : ℕ) {v : ℕ}
    → pack_entry offset cardinality ≡ ok v
    → (unpack_offset v ≡ offset) × (unpack_card v ≡ min cardinality card_cap) × (v < 2 ^ 64)
unfolding unpack_offset unpack_card
unpack-pack_entry offset cardinality {v} h =
    let value : v ≡ min cardinality card_cap * 2 ^ 40 + offset =
      ground (arith, pack_entry_lem offset cardinality) in
    let small : offset < 2 ^ 40 = ground (arith, pack_entry_lem offset cardinality) in
    (bit_and_mask 40 v ∙ omega arith, omega arith, omega arith)
