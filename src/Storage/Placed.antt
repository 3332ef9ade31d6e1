-- ===== src/Storage/Placed.antt =====
-- server/services/mmap.go and server/services/file_cache_map.go: the files that mMapTorrent maps are
-- those in which the file cache looks for the content of the torrent.
use torrent_web_seeder.Prelude.{
  ℕ, suc, zero, ◌≡◌, refl, false, none, some, List, [], ◌∷◌, ◌++◌, ◌==◌, if◌then◌else◌, Text, Int64,
  lt64, Result, Result-cases, Option-cases, inl, inr, if_split, ok, err, arith, subst, sym, ◌∙◌, ap,
  get_elem?,
}
use mathlib.Core.List.{append_assoc, append-nil}
use mathlib.Core.Option.{some-injective}
use torrent_web_seeder.Files.{FileInfo}
use torrent_web_seeder.FileCache.{Disk, content_path, get_path}
use torrent_web_seeder.FileCache.Recorded.{IsCached, get_path_exact}
use torrent_web_seeder.Storage.Mapping.{
  Place, Process, Mapping, map_region_of, map_opened, mmap_file, give_up, file_name, file_error,
  map_files, mmap_torrent,
}

-- A mapping of the whole of a file that is large enough.
pub record Fits (name : Text) (size : Int64) (m : Mapping) : Type 0 where
  pub named : m.name ≡ name
  pub large : lt64 m.file_size size ≡ false
  pub whole : m.region ≡ (if size == 0 then none else some size)

lt64_irrefl : (n : Int64) → lt64 n n ≡ false
unfolding lt64
lt64_irrefl n = ground arith

ok_mapping : {m n : Mapping} → ok n ≡ ok m → n ≡ m
ok_mapping h = cc

ok_mappings : {ms ns : List Mapping} → ok ns ≡ ok ms → ns ≡ ms
ok_mappings h = cc

module _ (W : Place) where
  Made : Text → Int64 → Process × Result Mapping → Type 0
  Made name size (q, err e) = Unit
  Made name size (q, ok m) = Fits name size m

  map_region_of-Made :
      (name : Text) (size : Int64) (h : ℕ) (n : Int64) (p : Process)
      → lt64 n size ≡ false
      → Made name size (map_region_of W name size h n p)
  unfolding map_region_of Made
  map_region_of-Made name size h n p l =
      if_split (Made name size) (size == 0)
        (λ z. record { named = refl; large = l; whole = rw z refl })
        (λ z. elim (Option-cases (W.calls name).map_region) [
          | inl e ↦ rw e (record { named = refl; large = l; whole = rw z refl })
          | inr (x, e) ↦ rw e tt
        ])

  map_opened-Made :
      (name : Text) (size : Int64) (h : ℕ) (p : Process)
      → Made name size (map_opened W name size h p)
  unfolding map_opened Made
  map_opened-Made name size h p = elim (Result-cases (W.calls name).stat_size) [
    | inl (x, e) ↦ rw (e, map_opened) tt
    | inr (n, e) ↦
        rw (e, map_opened)
          (if_split (Made name size) (lt64 n size)
            (λ short. elim (Option-cases (W.calls name).truncate) [
              | inl t ↦
                  rw (t, map_opened) (map_region_of-Made name size h size p (lt64_irrefl size))
              | inr (x, t) ↦ rw (t, map_opened) tt
            ])
            (λ long. map_region_of-Made name size h n p long))
  ]

  mmap_file-Made :
      (name : Text) (size : Int64) (p : Process) → Made name size (mmap_file W name size p)
  unfolding mmap_file Made
  mmap_file-Made name size p = elim (Option-cases (W.calls name).mkdir_all) [
    | inr (x, e) ↦ rw (e, mmap_file) tt
    | inl e ↦
        rw (e, mmap_file)
          (elim (Option-cases (W.calls name).open_file) [
            | inr (x, o) ↦ rw (o, mmap_file) tt
            | inl o ↦
                rw (o, mmap_file)
                  (map_opened-Made name size p.next (record p { next = suc p.next; is_open = _ }))
          ])
  ]

  Made-ok :
      (name : Text) (size : Int64) (x : Process × Result Mapping) (m : Mapping)
      → x.1 ≡ ok m
      → Made name size x
      → Fits name size m
  unfolding Made
  Made-ok name size (q, err e) m h k = cc
  Made-ok name size (q, ok n) m h k = subst (Fits name size) (ok_mapping h) k

  -- Each file has its mapping, in order, where the name of its content says.
  Placed : Text → List FileInfo → List Mapping → Type 0
  Placed location [] [] = Unit
  Placed location [] (m ∷ ms) = ⊥
  Placed location (f ∷ fs) [] = ⊥
  Placed location (f ∷ fs) (m ∷ ms) =
      ((safe : Text) × (W.to_safe_file_path (W.best_name ∷ W.best_path f) ≡ ok safe)
        × Fits (file_name W location safe) f.length m)
      × Placed location fs ms

  give_up-err :
      (ms : List Mapping) (e : Text) (p : Process) (r : List Mapping)
      → ¬ ((give_up W ms e p).1 ≡ ok r)
  unfolding give_up
  give_up-err ms e p r h = cc

  map_files-Placed :
      (location : Text) (fs : List FileInfo) (ms : List Mapping) (p : Process) (r : List Mapping)
      → (map_files W location fs ms p).1 ≡ ok r
      → (rest : List Mapping) × (r ≡ ms ++ rest) × Placed location fs rest
  unfolding map_files Placed
  map_files-Placed location [] ms p r h = ([], sym (ok_mappings h) ∙ sym (append-nil ms), tt)
  map_files-Placed location (f ∷ fs) ms p r h =
      elim (Result-cases (W.to_safe_file_path (W.best_name ∷ W.best_path f))) [
        | inl (x, e) ↦ absurd (give_up-err ms x p r (sym (rw (map_files, e) refl) ∙ h))
        | inr (safe, e) ↦
            let name = file_name W location safe in
            let mapped = mmap_file W name f.length p in
            elim (Result-cases mapped.1) [
              | inl (x, k) ↦ absurd (
                  give_up-err ms (file_error W f x) mapped.0 r
                    (sym (rw (map_files, e) (rw k refl)) ∙ h))
              | inr (m, k) ↦
                  let (rest, q, placed) =
                    map_files-Placed location fs (ms ++ (m ∷ [])) mapped.0 r
                      (sym (rw (map_files, e) (rw k refl)) ∙ h) in
                  (
                    m ∷ rest,
                    q ∙ append_assoc ms (m ∷ []) rest,
                    (
                      (safe, e, Made-ok name f.length mapped m k (mmap_file-Made name f.length p)),
                      placed,
                    ),
                  )
            ]
      ]

  Placed-get_elem? :
      (location : Text) (fs : List FileInfo) (ms : List Mapping) (i : ℕ) (f : FileInfo)
      → Placed location fs ms
      → get_elem? fs i ≡ some f
      → (m : Mapping) × (safe : Text) × (get_elem? ms i ≡ some m)
        × (W.to_safe_file_path (W.best_name ∷ W.best_path f) ≡ ok safe)
        × Fits (file_name W location safe) f.length m
  unfolding Placed
  Placed-get_elem? location [] ms i f p e = cc
  Placed-get_elem? location (g ∷ fs) [] i f p e = absurd p
  Placed-get_elem? location (g ∷ fs) (m ∷ ms) zero f ((safe, s, fits), p) e =
      let same : g ≡ f = some-injective g f e in
      (
        m,
        safe,
        refl,
        subst (λ x. W.to_safe_file_path (W.best_name ∷ W.best_path x) ≡ ok safe) same s,
        subst (λ x. Fits (file_name W location safe) x.length m) same fits,
      )
  Placed-get_elem? location (g ∷ fs) (m ∷ ms) (suc i) f (q, p) e =
      Placed-get_elem? location fs ms i f p e

ok_text : {a b : Text} → ok a ≡ ok b → a ≡ b
ok_text h = cc

module _ (W : Place) (D : Disk) (joined : W.join_path ≡ D.join_path)
    (hashed : W.sha1_hex ≡ D.sha1_hex) where
  file_name-content_path : (dir path : Text) → file_name W dir path ≡ content_path D dir path
  unfolding file_name content_path
  file_name-content_path dir path = rw (joined, hashed) refl

  -- When mMapTorrent has mapped the files of a torrent in the torrent's directory, and the file cache
  -- has content for the path that ToSafeFilePath makes of a file's name, then that content is the
  -- file that is mapped for it: large enough, and mapped as a whole unless it is empty. The two
  -- share SHA-1 and filepath.Join.
  pub cached_is_mapped :
      (h dir path : Text) (files : List FileInfo) (p : Process) (ms : List Mapping) (i : ℕ)
      (f : FileInfo) (c : ℕ) (at : Text)
      → D.get_dir h ≡ ok dir
      → (mmap_torrent W files dir p).1 ≡ ok ms
      → get_elem? files i ≡ some f
      → W.to_safe_file_path (W.best_name ∷ W.best_path f) ≡ ok path
      → get_path D h path ≡ ok (c ∷ at)
      → (m : Mapping) × (get_elem? ms i ≡ some m) × Fits (c ∷ at) f.length m
  unfolding mmap_torrent IsCached
  cached_is_mapped h dir path files p ms i f c at g made e s found =
      let (rest, q, placed) = map_files-Placed W dir files [] p ms made in
      let (m, safe, k, t, fits) = Placed-get_elem? W dir files rest i f placed e in
      let cached = (get_path_exact D h path c at).0 found in
      let same_dir : cached.0 ≡ dir = ok_text (sym cached.3 ∙ g) in
      let same_path : safe ≡ path = ok_text (sym t ∙ s) in
      let at_path : file_name W dir safe ≡ c ∷ at =
        ap (file_name W dir) same_path
        ∙ file_name-content_path dir path
        ∙ ap (λ d. content_path D d path) (sym same_dir)
        ∙ cached.9 in
      (
        m,
        subst (λ l. get_elem? l i ≡ some m) (sym q) k,
        subst (λ n. Fits n f.length m) at_path fits,
      )
