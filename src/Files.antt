-- ===== src/Files.antt =====
-- The torrent metadata that the storage reads, and the pieces that each of its files covers.
--
-- `Info` stands for metainfo.Info of anacrolix/torrent: its plain fields, and what its methods
-- NumPieces, TotalLength and Piece(i).Offset / .Length return. The range of pieces of a file is
-- computed by the same lines in server/services/piece_completion.go (Uncomplete,
-- IsPieceInCompletedFile, GetCompletedFiles) and in uncompleteAffectedFiles of mmap.go.
pub mod Pieces
use torrent_web_seeder.Prelude.{
  ℕ, Bool, true, false, ◌&&◌, Option, none, some, List, [], ◌∷◌, ◌++◌, ◌==◌, if◌then◌else◌, Text,
  codes, join, Int64, add64, le64, quot64,
}

pub record FileInfo : Type 0 where
  pub path : List Text
  pub length : Int64

pub record Info : Type 0 where
  pub name : Text
  pub files : List FileInfo
  pub piece_length : Int64
  pub num_pieces : ℕ
  pub total_length : Int64
  pub piece_offset : ℕ → Int64
  pub piece_size : ℕ → Int64

-- A file with its first and its last piece, as the loops compute them.
pub record FileRange : Type 0 where
  pub path : Text
  pub start_piece : Int64
  pub end_piece : Int64

-- info.Name + "/" + strings.Join(f.Path, "/")
unfoldable pub full_path : Text → FileInfo → Text
full_path name f = name ++ (codes "/" ++ join f.path (codes "/"))

-- `startPiece`, `endPiece` and `offset += int(f.Length)` for each file in turn.
unfoldable pub ranges_from : Text → Int64 → Int64 → List FileInfo → List FileRange
ranges_from name piece_length offset [] = []
ranges_from name piece_length offset (f ∷ fs) =
    record {
      path = full_path name f;
      start_piece = quot64 offset piece_length;
      end_piece = quot64 (add64 offset f.length) piece_length;
    }
    ∷ ranges_from name piece_length (add64 offset f.length) fs

-- A division by a piece length of 0 panics (`none`).
unfoldable pub file_ranges : Info → Option (List FileRange)
unfolding ranges_from
file_ranges info =
    if info.piece_length == 0
    then none
    else some (ranges_from info.name info.piece_length 0 info.files)

-- pieceIndex >= startPiece && pieceIndex <= endPiece
unfoldable pub in_range : ℕ → FileRange → Bool
in_range i r = le64 r.start_piece i && le64 i r.end_piece
