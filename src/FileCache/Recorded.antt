-- ===== src/FileCache/Recorded.antt =====
-- A path of content is found exactly for a file on record that is on the disk.
use torrent_web_seeder.Prelude.{
  ◌++◌, none, ℕ, ◌≡◌, ◌≢◌, ◌↔◌, refl, sym, ◌∙◌, ap, ◌⊎◌, inl, inr, Bool-cases, true, List, [], ◌∷◌,
  Text, Result, Result-cases, ok, err, elem, contains, codes,
}
use torrent_web_seeder.FileCache.{
  Presence, present, absent, unknown, Disk, or_no_table, database_path, content_path, stat_content,
  select_path, get_from, get_path, get_cached_path,
}

-- The file is on record in the torrent's directory, in a database that is not known to be absent, and
-- its content is at this path.
unfoldable pub IsCached : Disk → Text → Text → Text → Type 0
IsCached D h path at =
    (dir : Text) × (db : D.Conn) × (recorded : List Text) × (D.get_dir h ≡ ok dir)
    × (D.stat (database_path dir) ≢ absent)
    × (D.open_conn (database_path dir) ≡ ok db)
    × (D.rows db ≡ ok recorded)
    × (elem path recorded ≡ true)
    × (D.stat (content_path D dir path) ≡ present)
    × (content_path D dir path ≡ at)

Presence-cases : (a : Presence) → (a ≡ present) ⊎ ((a ≡ absent) ⊎ ((e : Text) × (a ≡ unknown e)))
Presence-cases present = inl refl
Presence-cases absent = inr (inl refl)
Presence-cases (unknown e) = inr (inr (e, refl))

err-≢-ok : (e : Text) → {a : Text} → ¬ (◌≡◌ {A = Result Text} (err e) (ok a))
err-≢-ok e h = cc

ok_path : {a b : Text} → ok a ≡ ok b → a ≡ b
ok_path h = cc

nil-≢-path : {c : ℕ} {a : Text} → ¬ (ok [] ≡ ok (c ∷ a))
nil-≢-path h = cc

module _ (D : Disk) (c : ℕ) (at : Text) where
  stat_content_found :
      (dir path : Text)
      → stat_content D dir path ≡ ok (c ∷ at)
      → (D.stat (content_path D dir path) ≡ present) × (content_path D dir path ≡ c ∷ at)
  unfolding stat_content
  stat_content_found dir path h = elim (Presence-cases (D.stat (content_path D dir path))) [
    | inl p ↦ (p, ok_path (sym (rw (stat_content, p) refl) ∙ h))
    | inr (inl p) ↦ absurd (nil-≢-path (sym (rw (stat_content, p) refl) ∙ h))
    | inr (inr (e, p)) ↦ absurd (err-≢-ok e (sym (rw (stat_content, p) refl) ∙ h))
  ]

  select_path_found :
      (dir path : Text) (paths : Result (List Text))
      → select_path D dir path paths ≡ ok (c ∷ at)
      → (recorded : List Text) × (paths ≡ ok recorded)
        × (elem path recorded ≡ true)
        × (stat_content D dir path ≡ ok (c ∷ at))
  unfolding select_path or_no_table
  select_path_found dir path (err e) h = elim (Bool-cases (contains e (codes "no such table"))) [
    | inl t ↦ absurd (nil-≢-path (sym (rw t refl) ∙ h))
    | inr f ↦ absurd (err-≢-ok e (sym (rw f refl) ∙ h))
  ]
  select_path_found dir path (ok paths) h = elim (Bool-cases (elem path paths)) [
    | inl t ↦ (paths, refl, t, sym (rw t refl) ∙ h)
    | inr f ↦ absurd (nil-≢-path (sym (rw f refl) ∙ h))
  ]

  get_from_open :
      (dir path : Text) (db : D.Conn)
      → D.stat (database_path dir) ≢ absent
      → D.open_conn (database_path dir) ≡ ok db
      → get_from D dir path ≡ select_path D dir path (D.rows db)
  unfolding get_from
  get_from_open dir path db there o = elim (Presence-cases (D.stat (database_path dir))) [
    | inl p ↦ rw (get_from, p) (rw o refl)
    | inr (inl p) ↦ absurd (there p)
    | inr (inr (e, p)) ↦ rw (get_from, p) (rw o refl)
  ]

  get_from_failed :
      (dir path e : Text)
      → D.stat (database_path dir) ≢ absent
      → D.open_conn (database_path dir) ≡ err e
      → get_from D dir path ≡ err e
  unfolding get_from
  get_from_failed dir path e there o = elim (Presence-cases (D.stat (database_path dir))) [
    | inl p ↦ rw (get_from, p) (rw o refl)
    | inr (inl p) ↦ absurd (there p)
    | inr (inr (w, p)) ↦ rw (get_from, p) (rw o refl)
  ]

  get_from-≢-absent :
      (dir path : Text) → get_from D dir path ≡ ok (c ∷ at) → D.stat (database_path dir) ≢ absent
  unfolding get_from
  get_from-≢-absent dir path h p = nil-≢-path (sym (rw (get_from, p) refl) ∙ h)

  get_from_found :
      (dir path : Text)
      → get_from D dir path ≡ ok (c ∷ at)
      → (db : D.Conn) × (D.stat (database_path dir) ≢ absent)
        × (D.open_conn (database_path dir) ≡ ok db)
        × (select_path D dir path (D.rows db) ≡ ok (c ∷ at))
  get_from_found dir path h =
      let there = get_from-≢-absent dir path h in
      elim (Result-cases (D.open_conn (database_path dir))) [
        | inl (e, o) ↦ absurd (err-≢-ok e (sym (get_from_failed dir path e there o) ∙ h))
        | inr (db, o) ↦ (db, there, o, sym (get_from_open dir path db there o) ∙ h)
      ]

  found_only : (h path : Text) → get_path D h path ≡ ok (c ∷ at) → IsCached D h path (c ∷ at)
  unfolding get_path IsCached
  found_only h path e = elim (Result-cases (D.get_dir h)) [
    | inl (f, g) ↦ absurd (err-≢-ok f (sym (rw (get_path, g) refl) ∙ e))
    | inr (dir, g) ↦
        let (db, there, o, q) = get_from_found dir path (sym (rw (get_path, g) refl) ∙ e) in
        let (recorded, r, i, t) = select_path_found dir path (D.rows db) q in
        let (p, a) = stat_content_found dir path t in (dir, db, recorded, g, there, o, r, i, p, a)
  ]

  found_if : (h path : Text) → IsCached D h path (c ∷ at) → get_path D h path ≡ ok (c ∷ at)
  unfolding get_path IsCached
  found_if h path (dir, db, recorded, g, there, o, r, i, p, a) =
      rw (get_path, g)
        (get_from_open dir path db there o
          ∙ ap (select_path D dir path) r
          ∙ unfold select_path in rw i (unfold stat_content in rw (stat_content, p) (ap ok a)))

pub get_path_exact :
    (D : Disk) (h path : Text) (c : ℕ) (at : Text)
    → (get_path D h path ≡ ok (c ∷ at)) ↔ IsCached D h path (c ∷ at)
get_path_exact D h path c at = (found_only D c at h path, found_if D c at h path)

-- As long as the lazy map has no answer for the hash and the path, the file cache has content at the
-- path exactly when the torrent's directory is found, its database opens and lists the file as
-- complete, and the content is on the disk at that path.
pub get_cached_path_exact :
    (D : Disk) (h path : Text) (c : ℕ) (at : Text)
    → D.kept (h ++ path) ≡ none
    → (get_cached_path D h path ≡ ok (c ∷ at)) ↔ IsCached D h path (c ∷ at)
unfolding get_cached_path
get_cached_path_exact D h path c at fresh =
    rw (get_cached_path, fresh) (get_path_exact D h path c at)
