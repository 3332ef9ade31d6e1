-- ===== src/FileStore.antt =====
-- server/services/file_store_map.go: the torrents of a path, loaded once.
--
-- The disk is a parameter of each call, as it may change between calls; what the first call loads is
-- kept. A map is an association list; List returns its keys in some order.
use torrent_web_seeder.Prelude.{
  ◌≡◌, refl, ap, Bool, true, false, ◌&&◌, not, Option, none, some, Option-cases, inl, inr, List, [],
  ◌∷◌, ◌++◌, map, drop, if◌then◌else◌, reverse, Text, text_eq, text_Eq, codes, is_nil, has_prefix,
  lookup, insert, Result, ok, err,
}
use torrent_web_seeder.Distribution.Location.{Entry}

-- `home` is the user's home directory, `is_directory` is os.Stat and IsDir, `load_from_file` is
-- metainfo.LoadFromFile, `info_hash` the hexadecimal hash of a torrent's info, and `join_home`
-- filepath.Join of the home directory and a path.
pub record Disk (MetaInfo : Type 0) : Type 0 where
  pub home : Text
  pub join_home : Text → Text
  pub is_directory : Text → Result Bool
  pub read_dir : Text → Result (List Entry)
  pub load_from_file : Text → Result MetaInfo
  pub info_hash : MetaInfo → Text

-- strings.HasSuffix
unfoldable pub has_suffix : Text → Text → Bool
has_suffix s suffix = has_prefix (reverse s) (reverse suffix)

module _ {MetaInfo : Type 0} (D : Disk MetaInfo) where
  unfoldable pub resolve : Text → Text
  resolve path =
      if text_eq path (codes "~")
      then D.home
      else if has_prefix path (codes "~/")
      then D.join_home (drop 2 path)
      else path

  unfoldable pub add_info : MetaInfo → List (Text × MetaInfo) → List (Text × MetaInfo)
  add_info mi m = insert (D.info_hash mi) mi m

  -- The loop over a directory: a file that cannot be loaded is passed over.
  unfoldable pub load_entries : Text → List Entry → List (Text × MetaInfo) → List (Text × MetaInfo)
  unfolding has_suffix add_info
  load_entries path [] m = m
  load_entries path (f ∷ fs) m =
      let skip = load_entries path fs m in
      let found : List (Text × MetaInfo) =
        (elim (D.load_from_file (path ++ (codes "/" ++ f.name))) [
          | err e ↦ skip
          | ok mi ↦ load_entries path fs (add_info mi m)
        ]) in
      if not f.is_dir && has_suffix f.name (codes ".torrent") then found else skip

  unfoldable pub load_path : Text → Result (List (Text × MetaInfo))
  unfolding load_entries add_info
  load_path path = elim (D.is_directory path) [
    | err e ↦ err e
    | ok true ↦ elim (D.read_dir path) [ err e ↦ err e | ok fs ↦ ok (load_entries path fs []) ]
    | ok false ↦ elim (D.load_from_file path) [ err e ↦ err e | ok mi ↦ ok (add_info mi []) ]
  ]

  unfoldable pub load_files : Text → Result (List (Text × MetaInfo))
  unfolding resolve load_path
  load_files p = if is_nil (resolve p) then ok [] else load_path (resolve p)

-- What sync.Once has stored.
pub record FileStoreMap (MetaInfo : Type 0) : Type 0 where
  pub p : Text
  pub infos : Option (Result (List (Text × MetaInfo)))

module _ {MetaInfo : Type 0} where
  unfoldable pub once : Disk MetaInfo → FileStoreMap MetaInfo → FileStoreMap MetaInfo
  unfolding load_files
  once D s = elim s.infos [ none ↦ record s { infos = some (load_files D s.p) } | some r ↦ s ]

  unfoldable pub find_loaded :
      Text → Option (Result (List (Text × MetaInfo))) → Result (Option MetaInfo)
  find_loaded h none = ok none
  find_loaded h (some (err e)) = err e
  find_loaded h (some (ok m)) = ok (lookup h m)

  unfoldable pub get_metainfo :
      Disk MetaInfo
      → Text
      → FileStoreMap MetaInfo
      → FileStoreMap MetaInfo × Result (Option MetaInfo)
  unfolding once find_loaded
  get_metainfo D h s = let s' = once D s in (s', find_loaded h s'.infos)

  unfoldable pub keys : Option (Result (List (Text × MetaInfo))) → Result (List Text)
  keys none = ok []
  keys (some (err e)) = err e
  keys (some (ok m)) = ok (map (λ kv. kv.0) m)

  unfoldable pub list_hashes :
      Disk MetaInfo → FileStoreMap MetaInfo → FileStoreMap MetaInfo × Result (List Text)
  unfolding once keys
  list_hashes D s = let s' = once D s in (s', keys s'.infos)

  once_loaded :
      (D : Disk MetaInfo) (s : FileStoreMap MetaInfo) (r : Result (List (Text × MetaInfo)))
      → s.infos ≡ some r
      → once D s ≡ s
  unfolding once
  once_loaded D s r e =
      ap {B = FileStoreMap MetaInfo}
        (λ (o : Option (Result (List (Text × MetaInfo)))). elim o as (λ x. FileStoreMap MetaInfo) [
          | none ↦ record s { infos = some (load_files D s.p) }
          | some r ↦ s
        ])
        e

  once_loads :
      (D : Disk MetaInfo) (s : FileStoreMap MetaInfo)
      → (r : Result (List (Text × MetaInfo))) × ((once D s).infos ≡ some r)
  unfolding once
  once_loads D s = elim (Option-cases s.infos) [
    | inl n ↦ (load_files D s.p, rw (once, n) refl)
    | inr (r, e) ↦ (r, rw (once, e) e)
  ]

  -- A disk that is looked at later makes no difference.
  once_kept : (D E : Disk MetaInfo) (s : FileStoreMap MetaInfo) → once D (once E s) ≡ once E s
  once_kept D E s = let (r, e) = once_loads E s in once_loaded D (once E s) r e
