-- ===== src/Tests/MmapRuns.antt =====
-- src/image_io/mmap.rs on an image of three bytes.
use isomage.Prelude.{◌≡◌, refl, ok, err, arith}
use isomage.Text.{codes}
use isomage.Bytes.{slice}
use isomage.Reader.{seek_start, seek_end, seek_current, invalid_input}
use isomage.Reader
use isomage.Mmap.{
  MmapImage, pos, negsuc, start, current, end, read, seek, new_pos, plus, not_negative, read_at,
}
use isomage.Mmap.Refines.{view, operations-view}

abbrev image : MmapImage
image = record { mmap = codes "abc"; cursor = 1 }

reads_rest : (read 8 image).0 ≡ ok (codes "bc")
unfolding read slice
reads_rest = refl

seeks_back : (seek (current (negsuc 0)) image).0 ≡ ok 0
unfolding seek new_pos plus not_negative
seeks_back = refl

seeks_before_start : (seek (end (negsuc 3)) image).0 ≡ err invalid_input
unfolding seek new_pos plus not_negative
seeks_before_start = refl

operations-view_example :
    (((read 2 image).0 ≡ (Reader.read 2 (view image)).0)
      × (view (read 2 image).1 ≡ (Reader.read 2 (view image)).1))
    × ((view (seek (start 2) image).1 ≡ (seek_start 2 (view image)).1)
        × ((seek (start 2) image).0 ≡ (seek_start 2 (view image)).0)
        × (view (seek (current (pos 2)) image).1 ≡ (seek_current 2 (view image)).1)
        × (view (seek (end (pos 0)) image).1 ≡ (seek_end (view image)).1)
        × ((seek (current (pos 2)) image).0 ≡ (seek_current 2 (view image)).0)
        × ((seek (end (pos 0)) image).0 ≡ (seek_end (view image)).0))
    × (read_at image 1 2 ≡ (Reader.read_at 1 2 (view image)).0)
operations-view_example =
    operations-view 2 2 2 1 image (omega arith) (omega arith) (omega arith) (omega arith)
