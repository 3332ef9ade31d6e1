-- ===== src/Storage/Mapping.antt =====
-- server/services/mmap.go: mMapTorrent and mmapFile, which open the files of a torrent and map them
-- into memory, and Unmap of a mapping.
--
-- The files that a process has open, and those that it has mapped, are known by the number of their
-- handle. What the system calls come to is a parameter, by the name of the file; int has 64 bits, so
-- that a size always fits, and a region that is mapped has the length that was asked for.
use torrent_web_seeder.Prelude.{
  ℕ, suc, Bool, true, false, Option, none, some, List, [], ◌∷◌, ◌++◌, ◌==◌, if◌then◌else◌, take,
  Text, codes, Int64, lt64, Result, ok, err,
}
use torrent_web_seeder.Files.{FileInfo}

-- What the calls on one file come to. An error of a call that returns only an error is `some`.
pub record Calls : Type 0 where
  pub mkdir_all : Option Text
  pub open_file : Option Text
  pub stat_size : Result Int64
  pub truncate : Option Text
  pub map_region : Option Text
  pub unmap_region : Option Text
  pub close_file : Option Text

-- The system, and what anacrolix/torrent says of a torrent: BestName, BestPath of a file,
-- storage.ToSafeFilePath and DisplayPath. `quote` is the verb %q.
pub record Place : Type 0 where
  pub calls : Text → Calls
  pub dir_of : Text → Text
  pub join_path : List Text → Text
  pub sha1_hex : Text → Text
  pub quote : Text → Text
  pub best_name : Text
  pub best_path : FileInfo → List Text
  pub to_safe_file_path : List Text → Result Text
  pub display_path : FileInfo → Text

pub record Process : Type 0 where
  pub next : ℕ
  pub is_open : ℕ → Bool
  pub is_mapped : ℕ → Bool

-- mmapWithFile, with the name of its file and the size that the file then has. The region of an
-- empty file is nil.
pub record Mapping : Type 0 where
  pub file : ℕ
  pub name : Text
  pub file_size : Int64
  pub region : Option Int64

abbrev pub mapping_of : ℕ → Text → Int64 → Option Int64 → Mapping
mapping_of h name n r = record { file = h; name = name; file_size = n; region = r }

abbrev pub put : ℕ → Bool → (ℕ → Bool) → ℕ → Bool
put h b f k = if h == k then b else f k

unfoldable pub close_handle : ℕ → Process → Process
close_handle h p = record p { is_open = put h false p.is_open }

module _ (W : Place) where
  open W use {
    calls, dir_of, join_path, sha1_hex, quote, best_name, best_path, to_safe_file_path,
    display_path,
  }

  -- The region of a file that is large enough.
  unfoldable pub map_region_of : Text → Int64 → ℕ → Int64 → Process → Process × Result Mapping
  map_region_of name size h n p =
      if size == 0 then (p, ok (mapping_of h name n none)) else elim (calls name).map_region [
        | some e ↦ (close_handle h p, err (codes "error mapping region: " ++ e))
        | none ↦
            (record p { is_mapped = put h true p.is_mapped }, ok (mapping_of h name n (some size)))
      ]

  -- Behind os.OpenFile: an error closes the file.
  unfoldable pub map_opened : Text → Int64 → ℕ → Process → Process × Result Mapping
  unfolding map_region_of
  map_opened name size h p = elim (calls name).stat_size [
    | err e ↦ (close_handle h p, err e)
    | ok n ↦
        if lt64 n size
        then elim (calls name).truncate [
          | some e ↦ (close_handle h p, err e)
          | none ↦ map_region_of name size h size p
        ]
        else map_region_of name size h n p
  ]

  unfoldable pub mmap_file : Text → Int64 → Process → Process × Result Mapping
  unfolding map_opened
  mmap_file name size p = elim (calls name).mkdir_all [
    | some e ↦ (p, err (codes "making directory " ++ (quote (dir_of name) ++ (codes ": " ++ e))))
    | none ↦ elim (calls name).open_file [
      | some e ↦ (p, err e)
      | none ↦
          map_opened name size p.next
            (record p { next = suc p.next; is_open = put p.next true p.is_open })
    ]
  ]

  -- Unmap: the file is closed whatever the region comes to. The error of the region comes first.
  unfoldable pub unmap_error : Mapping → Option Text
  unmap_error m = elim m.region [
    | none ↦ (calls m.name).close_file
    | some n ↦ elim (calls m.name).unmap_region [
      | some e ↦ some e
      | none ↦ (calls m.name).close_file
    ]
  ]

  abbrev pub left_mapped : Option Text → Bool
  left_mapped none = false
  left_mapped (some e) = true

  unfoldable pub unmapped : Mapping → (ℕ → Bool) → ℕ → Bool
  unmapped m f = elim m.region [
    | none ↦ f
    | some n ↦ put m.file (left_mapped (calls m.name).unmap_region) f
  ]

  unfoldable pub unmap : Mapping → Process → Process
  unfolding unmapped close_handle
  unmap m p = close_handle m.file (record p { is_mapped = unmapped m p.is_mapped })

  -- errors.Join
  unfoldable pub join_error : Text → Option Text → Text
  join_error e none = e
  join_error e (some f) = e ++ (codes "\n" ++ f)

  -- The deferred loop over the mappings, when there is an error.
  unfoldable pub unmap_all : List Mapping → Text → Process → Process × Text
  unfolding unmap unmap_error join_error
  unmap_all [] e p = (p, e)
  unmap_all (m ∷ ms) e p = unmap_all ms (join_error e (unmap_error m)) (unmap m p)

  -- What the deferred function leaves of an error.
  unfoldable pub give_up : List Mapping → Text → Process → Process × Result (List Mapping)
  unfolding unmap_all
  give_up ms e p = let (p', e') = unmap_all ms e p in (p', err e')

  unfoldable pub file_name : Text → Text → Text
  file_name location safe_name =
      let hash = sha1_hex safe_name in
      join_path (location ∷ codes "content" ∷ take 2 hash ∷ hash ∷ [])

  unfoldable pub file_error : FileInfo → Text → Text
  file_error f e = codes "file " ++ (quote (display_path f) ++ (codes ": " ++ e))

  -- The loop over the files, `ms` the mappings so far.
  unfoldable pub map_files :
      Text → List FileInfo → List Mapping → Process → Process × Result (List Mapping)
  unfolding mmap_file give_up file_name file_error
  map_files location [] ms p = (p, ok ms)
  map_files location (f ∷ fs) ms p = elim (to_safe_file_path (best_name ∷ best_path f)) [
    | err e ↦ give_up ms e p
    | ok safe_name ↦
        (let (p', r) = mmap_file (file_name location safe_name) f.length p in
          elim r [
            | err e ↦ give_up ms (file_error f e) p'
            | ok m ↦ map_files location fs (ms ++ (m ∷ [])) p'
          ])
  ]

  -- `files` is UpvertedFiles of the torrent.
  unfoldable pub mmap_torrent : List FileInfo → Text → Process → Process × Result (List Mapping)
  unfolding map_files
  mmap_torrent files location p = map_files location files [] p
