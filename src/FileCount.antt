-- ===== src/FileCount.antt =====
-- server/services/torrent_file_count_map.go: how many files a torrent has below a path.
--
-- The two stores, the decoder of a torrent's info and the lazy map are parameters.
use torrent_web_seeder.Prelude.{
  ℕ, ◌+◌, Option, none, some, List, [], ◌∷◌, ◌++◌, ◌==◌, if◌then◌else◌, length, Text, codes,
  has_prefix, Result, ok, err,
}
use torrent_web_seeder.Files.{Info, FileInfo, full_path}

-- The metadata of a torrent, that a store may have or not, and mi.UnmarshalInfo. `kept` is the
-- answer for a hash that the lazy map has, if it has one.
pub record InfoStores : Type 1 where
  pub MetaInfo : Type 0
  pub file_store : Text → Result (Option MetaInfo)
  pub torrent_store : Text → Result (Option MetaInfo)
  pub unmarshal_info : MetaInfo → Result Info
  pub kept : Text → Option (Result (Option Info))

-- The loop of DirFileCount.
unfoldable pub count_files : Text → Text → List FileInfo → ℕ
unfolding full_path
count_files name dir_path [] = 0
count_files name dir_path (f ∷ fs) =
    let rest = count_files name dir_path fs in
    if has_prefix (full_path name f) (dir_path ++ codes "/") then rest + 1 else rest

module _ (T : InfoStores) where
  open T use {MetaInfo, file_store, torrent_store, unmarshal_info, kept}

  unfoldable pub decode : Result (Option MetaInfo) → Result (Option Info)
  decode (err e) = err e
  decode (ok none) = ok none
  decode (ok (some mi)) = elim (unmarshal_info mi) [ err e ↦ err e | ok info ↦ ok (some info) ]

  unfoldable pub get_info : Text → Result (Option Info)
  unfolding decode
  get_info h = elim (file_store h) [
    | err e ↦ err e
    | ok none ↦ decode (torrent_store h)
    | ok (some mi) ↦ decode (ok (some mi))
  ]

  -- GetInfo
  unfoldable pub get_cached_info : Text → Result (Option Info)
  unfolding get_info
  get_cached_info h = elim (kept h) [ some a ↦ a | none ↦ get_info h ]

  unfoldable pub total_files : Text → Result ℕ
  unfolding get_cached_info
  total_files h = elim (get_cached_info h) [
    | err e ↦ err e
    | ok none ↦ ok 0
    | ok (some info) ↦ ok (if length info.files == 0 then 1 else length info.files)
  ]

  unfoldable pub dir_file_count : Text → Text → Result ℕ
  unfolding get_cached_info count_files
  dir_file_count h dir_path = elim (get_cached_info h) [
    | err e ↦ err e
    | ok none ↦ ok 0
    | ok (some info) ↦ ok (count_files info.name dir_path info.files)
  ]
