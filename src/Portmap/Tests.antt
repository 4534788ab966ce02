-- ===== src/Portmap/Tests.antt =====
-- The theorems on the port map at concrete words and searches.
use npf.Prelude.{ℕ, ◌+◌, ◌≡◌, refl, arith, true, false, some}
use npf.Portmap.Word.{word_isset, word_cax}
use npf.Portmap.Word.IsSet.{packed, word_isset_iff}
use npf.Portmap.Word.Put.{word_isset-word_cax}
use npf.Portmap.Bitmap.{Bitmap, bitmap_set, chunk_set}
use npf.Portmap.Ports.{find_port, empty_bitmap}
use npf.Portmap.Ports.Search.{IsAnswer, find_port_total, find_port_stuck}

word_isset_iff_example : word_isset (packed 0 0 8 0 1024) 1023 ≡ true
word_isset_iff_example =
    word_isset_iff 0 0 8 0 1024 1023 (omega arith) (omega arith) (omega arith) (omega arith)
      (omega arith) (omega arith)

find_port_total_example :
    (r : ℕ × Bitmap) × (find_port 48128 1024 48128 true empty_bitmap (1024 + 7) (1024 + 7) ≡ some r)
    × IsAnswer 1024 48128 r
find_port_total_example = find_port_total 1024 48128 7 true empty_bitmap (omega arith)

-- The port 1027 is taken, and all others are free.
abbrev busy : Bitmap
busy = (bitmap_set true empty_bitmap 1027).1

taken : (bitmap_set true busy (1024 + 3)).0 ≡ false
unfolding bitmap_set chunk_set word_isset word_cax
taken = refl

find_port_stuck_example :
    find_port 1025 1024 1025 true busy (1024 + 3) (1024 + 3)
    ≡ some (0, (bitmap_set true busy (1024 + 3)).1)
find_port_stuck_example = find_port_stuck 1024 1025 3 true busy (omega arith) refl taken

word_isset-word_cax_example : word_isset (word_cax (packed 0 0 8 0 1024) 0 80) 7 ≡ true
unfolding word_isset
word_isset-word_cax_example =
    word_isset-word_cax 0 0 8 0 1024 80 7 (omega arith) (omega arith) (omega arith) (omega arith)
      (omega arith) (omega arith) (omega arith) refl
