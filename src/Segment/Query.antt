-- ===== src/Segment/Query.antt =====
-- crates/greplm-core/src/segment.rs: how an opened segment answers a trigram query.
pub mod Group
pub mod Dnf
pub mod Conjoin
pub mod Candidates
pub mod Built
pub mod Planned
use greplm.Common.{
  ℕ, ◌-◌, Bool, true, false, ◌&&◌, Option, none, some, List, [], ◌∷◌, leb, if◌then◌else◌, length,
  take, drop, is_empty, filter,
}
use greplm.Common.Options.{unwrap_or}
use greplm.Common.Result.{Result, ok, err, corrupt, ok_or, ◌>>=◌}
use greplm.Common.Sort.{sort_by_key}
use greplm.Roaring.{Roaring}
use greplm.Fst.{Fst}
use greplm.Trigram.{Trigram}
use greplm.Trigram.Query.{TrigramGroup, TrigramDnf, TrigramQuery, dnf_filters}
use greplm.Segment.{DocMeta, unpack_offset, unpack_card, max_group_trigrams}

-- The parts of `SegmentData` that a trigram query and the document table use.
pub record SegmentData (r : Roaring) (f : Fst) : Type 0 where
  pub fst : f.Map
  pub post : List ℕ
  pub post_len : ℕ
  pub docs : List DocMeta

pub record Segment (r : Roaring) (f : Fst) : Type 0 where
  pub id : ℕ
  pub contents : SegmentData r f
  pub live : r.Bitmap

abbrev pub tri_bytes : Trigram → List ℕ
tri_bytes (a, b, c) = a ∷ b ∷ c ∷ []

module _ {r : Roaring} {f : Fst} (seg : SegmentData r f) where
  unfoldable pub posting_entry : Trigram → Option ℕ
  posting_entry tri = f.get seg.fst (tri_bytes tri)

  -- `self.post.get(start..self.post_len)` is nothing when the range is out of bounds
  unfoldable pub posting_at : ℕ → Result r.Bitmap
  posting_at offset =
      if leb offset seg.post_len && leb seg.post_len (length seg.post)
      then ok_or (r.deserialize_from (take (seg.post_len - offset) (drop offset seg.post))) corrupt
      else err corrupt

  -- the loop over the group: nothing as soon as a trigram has no entry
  unfoldable pub group_entries : TrigramGroup → Option (List ℕ)
  unfolding posting_entry
  group_entries [] = some []
  group_entries (t ∷ ts) = elim (posting_entry t) [
    | none ↦ none
    | some v ↦ elim (group_entries ts) [ none ↦ none | some vs ↦ some (v ∷ vs) ]
  ]

  abbrev pub narrow : Option r.Bitmap → r.Bitmap → r.Bitmap
  narrow none bm = bm
  narrow (some a) bm = r.inter a bm

  -- the loop over the rarest entries, which ends once nothing is left
  unfoldable pub intersect : Option r.Bitmap → List ℕ → Result (Option r.Bitmap)
  unfolding posting_at unpack_offset
  intersect acc [] = ok acc
  intersect acc (v ∷ vs) = do
    bm ← posting_at (unpack_offset v)
    if r.is_empty (narrow acc bm)
        then ok (some (narrow acc bm))
        else intersect (some (narrow acc bm)) vs

  unfoldable pub group_bitmap : TrigramGroup → Result r.Bitmap
  unfolding group_entries intersect sort_by_key unpack_card
  group_bitmap group = elim (group_entries group) [
    | none ↦ ok r.empty
    | some entries ↦ (do
      acc ← intersect none (take max_group_trigrams (sort_by_key unpack_card entries))
      ok (unwrap_or acc r.empty))
  ]

  -- the loop over the groups of a DNF
  unfoldable pub unite : r.Bitmap → TrigramDnf → Result r.Bitmap
  unfolding group_bitmap
  unite acc [] = ok acc
  unite acc (g ∷ gs) = do bm ← group_bitmap g; unite (r.union acc bm) gs

  unfoldable pub dnf_bitmap : TrigramDnf → Result r.Bitmap
  unfolding unite
  dnf_bitmap dnf = unite r.empty dnf

  -- the loop over the DNFs that filter
  unfoldable pub conjoin : Option r.Bitmap → List TrigramDnf → Result (Option r.Bitmap)
  unfolding dnf_bitmap
  conjoin acc [] = ok acc
  conjoin acc (d ∷ ds) = do
    bm ← dnf_bitmap d
    if r.is_empty (narrow acc bm)
        then ok (some (narrow acc bm))
        else conjoin (some (narrow acc bm)) ds

unfoldable pub candidates : {r : Roaring} {f : Fst} → Segment r f → TrigramQuery → Result r.Bitmap
unfolding conjoin dnf_filters
candidates {r} seg query =
    let filtering = filter dnf_filters query.dnfs in
    if is_empty filtering then ok seg.live else (do
      found ← conjoin seg.contents none filtering
      ok (r.inter (unwrap_or found r.empty) seg.live))
