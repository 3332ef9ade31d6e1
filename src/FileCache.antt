-- ===== src/FileCache.antt =====
-- server/services/file_cache_map.go: which files the completion database has on record.
--
-- The file system, SQLite, the SHA-1 sum and the lazy map are parameters. `get_path` is the method get,
-- `get_cached_path` is Get.
pub mod Recorded
pub mod Counted
use torrent_web_seeder.Prelude.{
  ℕ, Bool, Option, none, some, true, false, List, [], ◌∷◌, ◌++◌, ◌==◌, leb, if◌then◌else◌, length,
  select, take, Text, codes, is_nil, contains, elem, Result, ok, err,
}

-- What os.Stat says of a path.
pub data Presence : Type 0 where
  present absent : Presence
  unknown : Text → Presence

-- `get_dir` is GetDir at the data directory; `join_path` is filepath.Join; `rows` selects the paths of
-- the table file_completion, or is an error; `like` is SQL's, the text before the pattern.
-- `kept` is the answer for a key that the lazy map has computed in the last 60 seconds, if it has one.
pub record Disk : Type 1 where
  pub Conn : Type 0
  pub get_dir : Text → Result Text
  pub stat : Text → Presence
  pub open_conn : Text → Result Conn
  pub rows : Conn → Result (List Text)
  pub like : Text → Text → Bool
  pub sha1_hex : Text → Text
  pub join_path : List Text → Text
  pub kept : Text → Option (Result Text)

-- A statement that fails because there is no table comes to a value all the same.
unfoldable pub or_no_table {ℓ} : {A : Type ℓ} → A → Text → Result A
or_no_table a e = if contains e (codes "no such table") then ok a else err e

unfoldable pub database_path : Text → Text
database_path dir = dir ++ codes "/.torrent.db"

module _ (D : Disk) where
  open D use {Conn, get_dir, stat, open_conn, rows, like, sha1_hex, join_path, kept}

  unfoldable pub content_path : Text → Text → Text
  content_path dir path =
      let hash = sha1_hex path in join_path (dir ∷ codes "content" ∷ take 2 hash ∷ hash ∷ [])

  -- The content of a complete file, if it is on the disk.
  unfoldable pub stat_content : Text → Text → Result Text
  unfolding content_path
  stat_content dir path = elim (stat (content_path dir path)) [
    | present ↦ ok (content_path dir path)
    | absent ↦ ok []
    | unknown e ↦ err e
  ]

  -- The select and what follows it.
  unfoldable pub select_path : Text → Text → Result (List Text) → Result Text
  unfolding or_no_table stat_content
  select_path dir path (err e) = or_no_table [] e
  select_path dir path (ok paths) = if elem path paths then stat_content dir path else ok []

  -- Only an error that says that the database does not exist ends early.
  unfoldable pub get_from : Text → Text → Result Text
  unfolding select_path database_path
  get_from dir path = elim (stat (database_path dir)) [
    | absent ↦ ok []
    | _ ↦ elim (open_conn (database_path dir)) [
      | err e ↦ err e
      | ok db ↦ select_path dir path (rows db)
    ]
  ]

  unfoldable pub get_path : Text → Text → Result Text
  unfolding get_from
  get_path h path = elim (get_dir h) [ err e ↦ err e | ok dir ↦ get_from dir path ]

  -- Get
  unfoldable pub get_cached_path : Text → Text → Result Text
  unfolding get_path
  get_cached_path h path = elim (kept (h ++ path)) [ some a ↦ a | none ↦ get_path h path ]

  -- select count(*), with a prefix unless the directory is the root.
  unfoldable pub count_completed : Text → List Text → ℕ
  count_completed [] paths = length paths
  count_completed (c ∷ dir_path) paths =
      length (select (λ path. like path (c ∷ dir_path ++ codes "/%")) paths)

  unfoldable pub enough : Text → ℕ → Result (List Text) → Result Bool
  unfolding or_no_table count_completed
  enough dir_path expected (err e) = or_no_table false e
  enough dir_path expected (ok paths) = ok (leb expected (count_completed dir_path paths))

  unfoldable pub is_dir_complete_from : Text → Text → ℕ → Result Bool
  unfolding enough database_path
  is_dir_complete_from dir dir_path expected = elim (stat (database_path dir)) [
    | absent ↦ ok false
    | _ ↦ elim (open_conn (database_path dir)) [
      | err e ↦ err e
      | ok db ↦ enough dir_path expected (rows db)
    ]
  ]

  unfoldable pub is_dir_complete : Text → Text → ℕ → Result Bool
  unfolding is_dir_complete_from
  is_dir_complete h dir_path expected =
      if leb expected 0
      then ok false
      else elim (get_dir h) [ err e ↦ err e | ok dir ↦ is_dir_complete_from dir dir_path expected ]
