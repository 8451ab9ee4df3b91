-- ===== src/Segment.antt =====
-- crates/greplm-core/src/segment.rs: the records of a segment and the packed values of its term
-- dictionary.
pub mod Pack
pub mod Postings
pub mod Query
pub mod Pairs
pub mod Files
pub mod Codecs
pub mod Writer
pub mod Disk
pub mod Complete
use greplm.Common.{
  ℕ, ◌-◌, ◌*◌, ◌/◌, ◌%◌, ◌^◌, min, bit_and, bit_or, Option, List, ltb, if◌then◌else◌,
}
use greplm.Common.Bits.{shl, shr}
use greplm.Common.Result.{Result, ok, err, other}

-- A `String`, as its bytes.
abbrev pub Text : Type 0
Text = List ℕ

pub record DocMeta : Type 0 where
  pub path : Text
  pub lang : Text
  pub size : ℕ
  pub hash : ℕ
  pub lines : ℕ

pub record SymbolEntry : Type 0 where
  pub doc_id : ℕ
  pub name : Text
  pub kind : Text
  pub line_start : ℕ
  pub line_end : ℕ
  pub container : Option Text
  pub signature : Option Text

pub record RawSymbol : Type 0 where
  pub name : Text
  pub kind : Text
  pub line_start : ℕ
  pub line_end : ℕ
  pub container : Option Text
  pub signature : Option Text

pub data RefKind : Type 0 where
  call import : RefKind

pub record RefEntry : Type 0 where
  pub doc_id : ℕ
  pub name : Text
  pub kind : RefKind
  pub line : ℕ
  pub column : ℕ

pub record RawRef : Type 0 where
  pub name : Text
  pub kind : RefKind
  pub line : ℕ
  pub column : ℕ

abbrev pub offset_bits : ℕ
offset_bits = 40

abbrev pub offset_mask : ℕ
offset_mask = 2 ^ offset_bits - 1

abbrev pub card_cap : ℕ
card_cap = 2 ^ (64 - offset_bits) - 1

abbrev pub max_group_trigrams : ℕ
max_group_trigrams = 4

-- the shift and the `|` are those of `u64`
unfoldable pub pack_entry : ℕ → ℕ → Result ℕ
pack_entry offset cardinality =
    if ltb offset_mask offset
    then err other
    else ok (bit_or (shl 64 (min cardinality card_cap) offset_bits) offset)

unfoldable pub unpack_offset : ℕ → ℕ
unpack_offset value = bit_and value offset_mask

unfoldable pub unpack_card : ℕ → ℕ
unpack_card value = shr value offset_bits
