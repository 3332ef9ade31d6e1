-- ===== src/Distribution/Location.antt =====
-- GetDir: the directory of a torrent, for a location that may end in a wildcard.
--
-- Listing a directory and making one are parameters, as are the sort and the hash prefix.
use torrent_web_seeder.Prelude.{
  ℕ, Bool, ◌&&◌, Option, none, some, List, [], ◌∷◌, ◌++◌, ◌==◌, map, select, if◌then◌else◌, Text,
  codes, is_nil, has_prefix, Result, ok, err,
}
use torrent_web_seeder.Distribution.{distribute_by_hash}

-- strings.TrimSuffix at "*" of a text that has this suffix
unfoldable pub without_star : Text → Option Text
without_star [] = none
without_star (c ∷ []) = if c == b'*' then some [] else none
without_star (c ∷ d ∷ s) = elim (without_star (d ∷ s)) [ none ↦ none | some t ↦ some (c ∷ t) ]

-- path.Split
unfoldable pub split_path : Text → Text × Text
split_path [] = ([], [])
split_path (c ∷ s) =
    let (dir, name) = split_path s in
    if is_nil dir
    then (if c == b'/' then (b'/' ∷ [], name) else ([], c ∷ name))
    else (c ∷ dir, name)

-- os.DirEntry
pub record Entry : Type 0 where
  pub name : Text
  pub is_dir : Bool

-- `mkdir_all` answers the text of an error, if there is one.
pub record FileSystem : Type 0 where
  pub read_dir : Text → Result (List Entry)
  pub mkdir_all : Text → Option Text
  pub sort : List Text → List Text
  pub hash_prefix : Text → ℕ

-- The names of the directories with a prefix.
unfoldable pub matching_dirs : Text → List Entry → List Text
matching_dirs lp files = map (λ f. f.name) (select (λ f. f.is_dir && has_prefix f.name lp) files)

unfoldable pub in_dir : Text → Text → Text
in_dir p hash = p ++ (codes "/" ++ hash)

module _ (F : FileSystem) where
  unfoldable pub choose_dir : Text → Text → List Text → Text → Option (Result Text)
  unfolding in_dir distribute_by_hash
  choose_dir prefix dir [] hash = elim (F.mkdir_all (prefix ++ codes "1")) [
    | some e ↦ some (err e)
    | none ↦ some (ok (in_dir (prefix ++ codes "1") hash))
  ]
  choose_dir prefix dir (d ∷ []) hash = some (ok (in_dir (dir ++ d) hash))
  choose_dir prefix dir (d ∷ e ∷ ds) hash =
      elim (distribute_by_hash F.sort F.hash_prefix (d ∷ e ∷ ds) hash) [
        | none ↦ none
        | some c ↦ some (ok (in_dir (dir ++ c) hash))
      ]

  unfoldable pub get_dir : Text → Text → Option (Result Text)
  unfolding without_star split_path matching_dirs choose_dir in_dir
  get_dir location hash = elim (without_star location) [
    | none ↦ some (ok (in_dir location hash))
    | some prefix ↦
        (let (dir, lp) = split_path prefix in
          elim (F.read_dir dir) [
            | err e ↦ some (err e)
            | ok files ↦ choose_dir prefix dir (matching_dirs lp files) hash
          ])
  ]
