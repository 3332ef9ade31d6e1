-- ===== src/WebSeeder/Available/OnRecord.antt =====
-- The web seeder with the file cache and the file counts behind it.
use torrent_web_seeder.Prelude.{
  ℕ, ◌<◌, ◌≡◌, ◌↔◌, refl, sym, ◌∙◌, ap, subst, inl, inr, true, false, none, some, List, [], ◌∷◌,
  ◌==◌, ◌++◌, codes, map, length, arith, Text, Result, ok, elem, Unique,
}
use torrent_web_seeder.Files.{Info, FileInfo, full_path}
use torrent_web_seeder.FileCache.{
  Disk, get_path, get_cached_path, is_dir_complete, get_from, select_path,
}
use torrent_web_seeder.FileCache.Counted.{
  below, OnRecord, LikesPrefixes, is_literal, CaseApart, LikesPrefixes-MatchesBelow,
  is_dir_complete_exact,
}
use torrent_web_seeder.FileCount.{
  InfoStores, count_files, get_cached_info, total_files, dir_file_count,
}
use torrent_web_seeder.TorrentMap.{new_torrent_map}
use torrent_web_seeder.WebSeeder.Calls.{Services}
use torrent_web_seeder.WebSeeder.Available.{serve_done}
use torrent_web_seeder.WebSeeder.Available.Exact.{
  AllComplete, InVault, IsAvailable, done_and_stats_exact,
}

-- NewWebSeeder, as far as the file cache and the file counts go.
unfoldable pub with_caches : Services → Disk → InfoStores → Services
with_caches S D T = record S {
  cache = get_cached_path D;
  dir_complete = is_dir_complete D;
  total_files = total_files T;
  dir_file_count = dir_file_count T;
}

-- The paths of a torrent of several files.
unfoldable pub paths : Info → List Text
paths info = map (full_path info.name) info.files

count_files-below :
    (name : Text) (c : ℕ) (dir_path : Text) (fs : List FileInfo)
    → count_files name (c ∷ dir_path) fs ≡ length (below (c ∷ dir_path) (map (full_path name) fs))
unfolding count_files below
count_files-below name c dir_path [] = refl
count_files-below name c dir_path (f ∷ fs) = ground (arith, count_files-below name c dir_path fs)

length-map : (f : FileInfo → Text) (fs : List FileInfo) → length (map f fs) ≡ length fs
length-map f [] = refl
length-map f (x ∷ fs) = omega (arith, length-map f fs)

-- What the handler reads as the number of files below a path.
expected : InfoStores → Text → Text → Result ℕ
expected T h [] = total_files T h
expected T h (c ∷ p) = dir_file_count T h (c ∷ p)

expected_exact :
    (T : InfoStores) (h dir_path : Text) (info : Info)
    → get_cached_info T h ≡ ok (some info)
    → 0 < length info.files
    → expected T h dir_path ≡ ok (length (below dir_path (paths info)))
unfolding expected total_files dir_file_count paths below
expected_exact T h [] info e some_files =
    let several : (length info.files == 0) ≡ false = ground arith in
    rw (total_files, e) (rw several (ap ok (sym (length-map (full_path info.name) info.files))))
expected_exact T h (c ∷ p) info e some_files =
    rw (dir_file_count, e) (ap ok (count_files-below info.name c p info.files))

some_vault : {A : Type 0} → {a : A} → ¬ (none ≡ some a)
some_vault e = cc

ok_count : {m n : ℕ} → ok m ≡ ok n → m ≡ n
ok_count e = cc

nil-≢-path : {c : ℕ} → {a : Text} → ¬ (ok [] ≡ ok (c ∷ a))
nil-≢-path e = cc

module _ (S : Services) (D : Disk) (T : InfoStores) (h : Text) (no_vault : S.vault ≡ none) where
  empty_vault : ¬ InVault (with_caches S D T) h
  unfolding InVault with_caches
  empty_vault (get, c, url, v, e) = some_vault (sym no_vault ∙ v)

  -- Without a vault, and with no file at the path, the files below the path decide.
  IsAvailable-below :
      (dir_path : Text)
      → get_cached_path D h dir_path ≡ ok []
      → IsAvailable (with_caches S D T) h dir_path
        ↔ AllComplete (with_caches S D T) h dir_path (expected T h dir_path)
  unfolding IsAvailable with_caches expected
  IsAvailable-below [] no_file =
      (elim [ inl all ↦ all | inr v ↦ absurd (empty_vault v) ], λ all. inl all)
  IsAvailable-below (c ∷ p) no_file = (
    elim [
      | inl (d, cp, e) ↦ absurd (nil-≢-path (sym no_file ∙ e))
      | inr (e, inl all) ↦ all
      | inr (e, inr v) ↦ absurd (empty_vault v)
    ],
    λ all. inr (no_file, inl all),
  )

  complete_exact :
      (dir_path : Text) (n : ℕ)
      → AllComplete (with_caches S D T) h dir_path (ok n)
        ↔ ((0 < n) × (is_dir_complete D h dir_path n ≡ ok true))
  unfolding AllComplete with_caches
  complete_exact dir_path n = (
    λ all.
        let (k, e, positive, done) = all in
        subst (λ x. (0 < x) × (is_dir_complete D h dir_path x ≡ ok true)) (sym (ok_count e))
          (positive, done),
    λ both. (n, refl, both.0, both.1),
  )

not_on_record :
    (D : Disk) (h dir_path : Text) (recorded : List Text)
    → D.kept (h ++ dir_path) ≡ none
    → OnRecord D h recorded
    → elem dir_path recorded ≡ false
    → get_cached_path D h dir_path ≡ ok []
unfolding OnRecord get_cached_path get_path get_from select_path
not_on_record D h dir_path recorded fresh (dir, db, g, p, o, r) missing =
    rw (get_cached_path, fresh)
      (rw (get_path, g)
        (rw (get_from, p) (rw (get_from, o) (rw (select_path, r) (rw missing refl)))))

-- The handler of `done` with the file cache and the file counts behind it, without a vault. Let the
-- torrent have several files, with paths all different; let its info be found, its database be read,
-- and have a path at most once and only paths of the torrent; let LIKE be as SQLite documents it, and
-- the path have no wildcard of LIKE and be no directory of the torrent in another case of letters;
-- let the path not be on record itself, and the lazy map in front of the file cache have no answer
-- for it. Then the request is answered with the default status exactly when some file lies below the
-- path and every file below it is on record.
pub done_on_record :
    (S : Services) (D : Disk) (T : InfoStores) (h dir_path : Text) (info : Info)
    (recorded : List Text)
    → S.vault ≡ none
    → get_cached_info T h ≡ ok (some info)
    → 0 < length info.files
    → OnRecord D h recorded
    → Unique recorded
    → Unique (paths info)
    → ((x : Text) → elem x recorded ≡ true → elem x (paths info) ≡ true)
    → LikesPrefixes D
    → is_literal (dir_path ++ codes "/") ≡ true
    → CaseApart dir_path (paths info)
    → D.kept (h ++ dir_path) ≡ none
    → elem dir_path recorded ≡ false
    → (serve_done (with_caches S D T) h dir_path ≡ []) ↔ (
        (0 < length (below dir_path (paths info)))
        × ((x : Text) → elem x (below dir_path (paths info)) ≡ true → elem x recorded ≡ true))
done_on_record S D T h dir_path info recorded no_vault e some_files read once apart own likes
      literal case_apart fresh missing =
    let m = LikesPrefixes-MatchesBelow D dir_path (paths info) likes literal case_apart in
    let n = length (below dir_path (paths info)) in
    let seeder = with_caches S D T in
    let (to_available, to_done) = (done_and_stats_exact seeder 0 new_torrent_map h dir_path).0 in
    let (to_all, from_all) =
      IsAvailable-below S D T h no_vault dir_path
        (not_on_record D h dir_path recorded fresh read missing) in
    let count = expected_exact T h dir_path info e some_files in
    let (split, both) = complete_exact S D T h no_vault dir_path n in
    let exact = λ (positive : 0 < n).
      is_dir_complete_exact D h dir_path recorded (paths info) read once apart own m positive in
    (
      λ q.
          let (positive, all) =
            split (subst (AllComplete seeder h dir_path) count (to_all (to_available q))) in
          (positive, (exact positive).0 all),
      λ held. to_done (
          from_all (
            subst (AllComplete seeder h dir_path) (sym count)
              (both (held.0, (exact held.0).1 held.1)))),
    )
