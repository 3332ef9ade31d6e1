-- ===== src/Tests/Spans.antt =====
-- pieceFileRegions and madviseSpanRange of server/services/mmap.go on three files.
use torrent_web_seeder.Prelude.{
  ℕ, ◌+◌, ◌≡◌, refl, ◌&&◌, some, none, Option, List, [], ◌∷◌, leb, ltb, arith, All, add64, sub64,
  lt64, le64, min64, max64,
}
use torrent_web_seeder.Regions.{piece_file_regions, madvise_span_range}
use torrent_web_seeder.Regions.Bytes.{holds, piece_file_regions-bytes}
use torrent_web_seeder.Regions.Bounds.{Inside, piece_file_regions-Inside}
use torrent_web_seeder.Regions.Advised.{advised, madvise_span_range-bytes}

program : Unit {0}
unfolding piece_file_regions madvise_span_range add64 sub64 lt64 le64 min64 max64
program = tt

abbrev lens : List ℕ
lens = 5 ∷ 0 ∷ 6 ∷ []

regions_of_second :
    piece_file_regions lens 4 4
    ≡ record { file_index = 0; offset = 4; length = 1 }
      ∷ record { file_index = 1; offset = 0; length = 0 }
      ∷ record { file_index = 2; offset = 0; length = 3 }
      ∷ []
unfolding program
regions_of_second = refl

piece_file_regions-bytes_example :
    holds 2 1 (piece_file_regions lens 4 4) ≡ (leb 4 (5 + 1) && ltb (5 + 1) (4 + 4))
piece_file_regions-bytes_example =
    piece_file_regions-bytes lens 4 4 2 1 6 (omega arith) (omega arith) refl (omega arith)

piece_file_regions-Inside_example : All (Inside lens 0) (piece_file_regions lens 4 4)
piece_file_regions-Inside_example =
    piece_file_regions-Inside lens 4 4 (omega arith) (omega arith) (omega arith)

abbrev mmaps : List (Option ℕ)
mmaps = some 5 ∷ none ∷ some 6 ∷ []

madvise_span_range-bytes_example :
    advised 0 4 (madvise_span_range mmaps lens 4 4) ≡ (leb 4 (0 + 4) && ltb (0 + 4) (4 + 4))
madvise_span_range-bytes_example =
    madvise_span_range-bytes mmaps lens 4 4 0 4 5 (omega arith) (omega arith) refl refl
      (omega arith)
