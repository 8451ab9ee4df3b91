-- ===== src/Segment/Disk/Live.antt =====
-- `subtract_live` in crates/greplm-core/src/segment.rs: the tombstones of a segment.
use greplm.Common.{ℕ, ◌≡◌, ◌∙◌, not, ◌&&◌, List, [], ◌∷◌, foldl, arith}
use greplm.Common.Member.{elem}
use greplm.Roaring.{Roaring, RoaringLaws}
use greplm.Fst.{Fst}
use greplm.Segment.Query.{Segment}
use greplm.Segment.Disk.{is_live, subtract_live}

contains-foldl_remove :
    {r : Roaring} (laws : RoaringLaws r) (bm : r.Bitmap) (ids : List ℕ) (d : ℕ)
    → r.contains (foldl r.remove bm ids) d ≡ (r.contains bm d && not (elem d ids))
unfolding elem
contains-foldl_remove laws bm [] d = ground arith
contains-foldl_remove {r} laws bm (i ∷ ids) d =
    contains-foldl_remove laws (r.remove bm i) ids d ∙ ground (arith, laws.contains-remove bm i d)

-- After pending tombstones are subtracted, a document is alive exactly when it was alive before and
-- is not among them.
pub is_live-subtract_live :
    {r : Roaring} (laws : RoaringLaws r) {f : Fst} (seg : Segment r f) (doc_ids : List ℕ) (d : ℕ)
    → is_live (subtract_live seg doc_ids) d ≡ (is_live seg d && not (elem d doc_ids))
unfolding is_live subtract_live
is_live-subtract_live laws seg doc_ids d = contains-foldl_remove laws seg.live doc_ids d
