-- ===== src/Distribution.antt =====
-- server/services/common.go, DistributeByHash: which data directory a torrent is kept in.
--
-- sort.Strings and the number that the first five hexadecimal digits of a SHA-1 sum stand for are
-- parameters. No number here reaches 2^63: the largest is 1048575 * 1000.
pub mod Spread
pub mod Location
pub mod Placing
use torrent_web_seeder.Prelude.{
  ℕ, ◌+◌, ◌*◌, ◌/◌, ◌≤◌, Bool, true, false, Option, none, some, List, [], ◌∷◌, ltb, ◌==◌,
  if◌then◌else◌, length, Text,
}

abbrev pub total : ℕ
total = 1_048_575_000

-- The loop over the directories from index `i`.
unfoldable pub pick_from : ℕ → ℕ → ℕ → List Text → Option Text
pick_from num interval i [] = none
pick_from num interval i (d ∷ ds) =
    let rest = pick_from num interval (i + 1) ds in
    if ltb num ((i + 1) * interval) then some d else rest

-- The string and nil of a return. Behind the loop the source wraps an error that is nil, and so
-- returns the empty string and no error.
unfoldable pub directory_or_empty : Option Text → Text
directory_or_empty none = []
directory_or_empty (some d) = d

-- `none` is the panic of a division by 0 when there are no directories.
unfoldable pub distribute_by_hash :
    (List Text → List Text) → (Text → ℕ) → List Text → Text → Option Text
unfolding pick_from directory_or_empty
distribute_by_hash sort prefix dirs hash =
    let sorted = sort dirs in
    if length sorted == 0
    then none
    else some (directory_or_empty (pick_from (prefix hash * 1000) (total / length sorted) 0 sorted))
