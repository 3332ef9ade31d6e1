-- ===== src/PieceReader.antt =====
-- server/services/piece_reader.go: Seek within a piece, by seeking in the torrent.
--
-- The reader of the torrent is a parameter: where a seek from its current state comes to.
use torrent_web_seeder.Prelude.{◌≡◌, refl, Int64, add64, sub64, Result, ok, err}

-- The second argument of Seek.
pub data Whence : Type 0 where
  seek_start seek_current seek_end : Whence
  seek_other : Whence

-- A piece with its offset in the torrent, p.Info().Offset() and p.Info().Length().
pub record PieceReader : Type 0 where
  pub piece_offset : Int64
  pub length : Int64
  pub seek_torrent : Int64 → Whence → Result Int64

unfoldable pub seek : PieceReader → Int64 → Whence → Result Int64
seek s offset seek_start = elim (s.seek_torrent (add64 s.piece_offset offset) seek_start) [
  | err e ↦ err e
  | ok n ↦ ok offset
]
seek s offset seek_current = elim (s.seek_torrent offset seek_current) [
  | err e ↦ err e
  | ok n ↦ ok (sub64 n s.piece_offset)
]
seek s offset seek_end =
    let piece_length = add64 s.length offset in
    elim (s.seek_torrent (add64 (add64 s.piece_offset piece_length) offset) seek_start) [
      | err e ↦ err e
      | ok n ↦ ok (sub64 n s.piece_offset)
    ]
seek s offset seek_other = ok 0

-- On a reader that goes where it is told, a seek by a whole number from the end of the piece lands at
-- the length plus twice that number.
seek_end_twice :
    (s : PieceReader) (offset : Int64)
    → s.seek_torrent (add64 (add64 s.piece_offset (add64 s.length offset)) offset) seek_start
      ≡ ok (add64 (add64 s.piece_offset (add64 s.length offset)) offset)
    → seek s offset seek_end
      ≡ ok (sub64 (add64 (add64 s.piece_offset (add64 s.length offset)) offset) s.piece_offset)
unfolding seek
seek_end_twice s offset e = rw (seek, e) refl
