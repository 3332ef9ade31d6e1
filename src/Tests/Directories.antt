-- ===== src/Tests/Directories.antt =====
-- server/services/common.go with three directories.
use torrent_web_seeder.Prelude.{
  true, none, ◌++◌, has_prefix, elem, ok, ℕ, ◌*◌, ◌≡◌, refl, some, List, [], ◌∷◌, length, arith,
  codes, Text,
}
use torrent_web_seeder.Distribution.{distribute_by_hash}
use torrent_web_seeder.Distribution.Location.{
  Entry, FileSystem, without_star, split_path, matching_dirs, in_dir, get_dir,
}
use torrent_web_seeder.Distribution.Placing.{Matches, get_dir_found, get_dir_missed}
use mathlib.Core.List.Permᴰ

abbrev dirs : List Text
dirs = codes "d1" ∷ codes "d2" ∷ codes "d3" ∷ []

-- The directories are sorted; a hash has its length as its prefix.
abbrev sorted : List Text → List Text
sorted ds = ds

abbrev prefix : Text → ℕ
prefix h = 200_000 * length h

abbrev last_prefix : Text → ℕ
last_prefix h = 1_048_575

second : distribute_by_hash sorted prefix dirs (codes "ab") ≡ some (codes "d2")
unfolding distribute_by_hash
second = refl

abbrev entries : List Entry
entries =
    record { name = codes "d1"; is_dir = true }
    ∷ record { name = codes "d2"; is_dir = true }
    ∷ record { name = codes "e"; is_dir = true }
    ∷ record { name = codes "d3"; is_dir = true }
    ∷ []

abbrev files_with : (Text → ℕ) → FileSystem
files_with hash_prefix = record {
  read_dir = λ d. ok entries;
  mkdir_all = λ p. none;
  sort = sorted;
  hash_prefix = hash_prefix;
}

three_match : (p : Text → ℕ) → Matches (files_with p) (codes "/data/d*") (codes "/data/d") dirs
unfolding without_star matching_dirs split_path has_prefix
three_match p = record { wildcard = refl; files = entries; listed = refl; matching = refl }

get_dir_found_example :
    (d : Text) × (elem d dirs ≡ true)
    × (get_dir (files_with prefix) (codes "/data/d*") (codes "ab")
        ≡ some (ok (in_dir ((split_path (codes "/data/d")).0 ++ d) (codes "ab"))))
get_dir_found_example =
    get_dir_found (files_with prefix) (codes "/data/d*") (codes "/data/d") (codes "ab") dirs
      (λ ds. Permᴰ.refl ds) (three_match prefix) (omega arith) (omega arith) (omega arith)

get_dir_missed_example :
    get_dir (files_with last_prefix) (codes "/data/d*") (codes "ab")
    ≡ some (ok (in_dir ((split_path (codes "/data/d")).0 ++ []) (codes "ab")))
get_dir_missed_example =
    get_dir_missed (files_with last_prefix) (codes "/data/d*") (codes "/data/d") (codes "ab") dirs
      (λ ds. Permᴰ.refl ds) (three_match last_prefix) (omega arith) (omega arith) refl
