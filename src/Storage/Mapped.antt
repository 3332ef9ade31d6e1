-- ===== src/Storage/Mapped.antt =====
-- server/services/mmap.go: what mMapTorrent leaves open, and where it maps the files of a torrent.
use torrent_web_seeder.Prelude.{
  ℕ, suc, ◌≡◌, refl, ◌≤◌, Bool, true, false, ◌||◌, List, [], ◌∷◌, ◌++◌, ◌==◌, if◌then◌else◌, Text,
  codes, Int64, lt64, Result, Result-cases, Option-cases, inl, inr, if_split, ok, err, arith, ◌∙◌,
}
use torrent_web_seeder.Files.{FileInfo}
use torrent_web_seeder.Storage.Mapping.{
  Place, Process, Mapping, put, close_handle, map_region_of, map_opened, mmap_file, unmap,
  unmap_all, unmap_error, join_error, give_up, file_name, file_error, map_files, mmap_torrent,
}

-- No handle from the next on is open.
abbrev IsFresh : Process → Type 0
IsFresh p = (k : ℕ) → p.next ≤ k → p.is_open k ≡ false

holds : ℕ → List Mapping → Bool
holds k [] = false
holds k (m ∷ ms) = (m.file == k) || holds k ms

holds-append :
    (k : ℕ) (ms : List Mapping) (m : Mapping)
    → holds k (ms ++ (m ∷ [])) ≡ (holds k ms || (m.file == k))
unfolding holds
holds-append k [] m = ground arith
holds-append k (n ∷ ms) m = ground (arith, holds-append k ms m)

module _ (W : Place) where
  unmap_all-is_open :
      (ms : List Mapping) (e : Text) (p : Process) (k : ℕ)
      → (unmap_all W ms e p).0.is_open k ≡ (if holds k ms then false else p.is_open k)
  unfolding unmap_all holds
  unmap_all-is_open [] e p k = refl
  unmap_all-is_open (m ∷ ms) e p k =
      ground (arith, unmap_all-is_open ms (join_error W e (unmap_error W m)) (unmap W m p) k)

  -- What a call of mmapFile leaves: nothing new on an error, and one open file otherwise.
  Leaves : Process → Process × Result Mapping → Type 0
  Leaves p (q, err e) = IsFresh q × ((k : ℕ) → q.is_open k ≡ p.is_open k)
  Leaves p (q, ok m) =
      IsFresh q × (m.file ≡ p.next) × ((k : ℕ) → q.is_open k ≡ put p.next true p.is_open k)

  abbrev opened : Process → Process
  opened p = record p { next = suc p.next; is_open = put p.next true p.is_open }

  closed-Leaves :
      (p : Process) (e : Text) → IsFresh p → Leaves p (close_handle p.next (opened p), err e)
  unfolding Leaves close_handle
  closed-Leaves p e f = (λ k h. ground (arith, f k), λ k. ground (arith, f k))

  map_region_of-Leaves :
      (name : Text) (size n : Int64) (p : Process)
      → IsFresh p
      → Leaves p (map_region_of W name size p.next n (opened p))
  unfolding map_region_of Leaves
  map_region_of-Leaves name size n p f =
      if_split (Leaves p) (size == 0) (λ z. (λ k h. ground (arith, f k), refl, λ k. refl))
        (λ z. elim (Option-cases (W.calls name).map_region) [
          | inl e ↦ rw e (λ k h. ground (arith, f k), refl, λ k. refl)
          | inr (x, e) ↦ rw e (closed-Leaves p (codes "error mapping region: " ++ x) f)
        ])

  map_opened-Leaves :
      (name : Text) (size : Int64) (p : Process)
      → IsFresh p
      → Leaves p (map_opened W name size p.next (opened p))
  unfolding map_opened
  map_opened-Leaves name size p f = elim (Result-cases (W.calls name).stat_size) [
    | inl (x, e) ↦ rw (e, map_opened) (closed-Leaves p x f)
    | inr (n, e) ↦
        rw (e, map_opened)
          (if_split (Leaves p) (lt64 n size)
            (λ short. elim (Option-cases (W.calls name).truncate) [
              | inl t ↦ rw (t, map_opened) (map_region_of-Leaves name size size p f)
              | inr (x, t) ↦ rw (t, map_opened) (closed-Leaves p x f)
            ])
            (λ long. map_region_of-Leaves name size n p f))
  ]

  mmap_file-Leaves :
      (name : Text) (size : Int64) (p : Process) → IsFresh p → Leaves p (mmap_file W name size p)
  unfolding mmap_file Leaves
  mmap_file-Leaves name size p f = elim (Option-cases (W.calls name).mkdir_all) [
    | inr (x, e) ↦ rw (e, mmap_file) (f, λ k. refl)
    | inl e ↦
        rw (e, mmap_file)
          (elim (Option-cases (W.calls name).open_file) [
            | inr (x, o) ↦ rw (o, mmap_file) (f, λ k. refl)
            | inl o ↦ rw (o, mmap_file) (map_opened-Leaves name size p f)
          ])
  ]

  -- Apart from the mappings so far, the open files are those of the process at the start.
  Holding : Process → List Mapping → Process → Type 0
  Holding p ms q = IsFresh q × ((k : ℕ) → (if holds k ms then false else q.is_open k) ≡ p.is_open k)

  fresh : (p : Process) (ms : List Mapping) (q : Process) → Holding p ms q → IsFresh q
  unfolding Holding
  fresh p ms q h = h.0

  -- After an error the open files are those of the start.
  Released : Process → Process × Result (List Mapping) → Type 0
  Released p (q, err e) = (k : ℕ) → q.is_open k ≡ p.is_open k
  Released p (q, ok ms) = Holding p ms q

  give_up-Released :
      (p q : Process) (ms : List Mapping) (e : Text)
      → Holding p ms q
      → Released p (give_up W ms e q)
  unfolding give_up Released Holding
  give_up-Released p q ms e h = λ k. unmap_all-is_open ms e q k ∙ h.1 k

  Leaves-err :
      (p : Process) (x : Process × Result Mapping) (ms : List Mapping) (q : Process) (e : Text)
      → x.1 ≡ err e
      → Holding p ms q
      → Leaves q x
      → Holding p ms x.0
  unfolding Leaves Holding
  Leaves-err p (x, ok m) ms q e h l k = cc
  Leaves-err p (x, err d) ms q e h l k = (k.0, λ j. ground (arith, k.1 j, l.1 j))

  Leaves-ok :
      (p : Process) (x : Process × Result Mapping) (ms : List Mapping) (q : Process) (m : Mapping)
      → x.1 ≡ ok m
      → Holding p ms q
      → Leaves q x
      → Holding p (ms ++ (m ∷ [])) x.0
  unfolding Leaves Holding
  Leaves-ok p (x, err d) ms q m h l k = cc
  Leaves-ok p (x, ok n) ms q m h l k =
      (k.0, λ j. ground (arith, k.1, k.2 j, l.0 j, l.1 j, holds-append j ms m))

  map_files-Released :
      (location : Text) (fs : List FileInfo) (p q : Process) (ms : List Mapping)
      → Holding p ms q
      → Released p (map_files W location fs ms q)
  unfolding map_files
  map_files-Released location [] p q ms h = unfold Released in h
  map_files-Released location (f ∷ fs) p q ms h =
      elim (Result-cases (W.to_safe_file_path (W.best_name ∷ W.best_path f))) [
        | inl (x, e) ↦ rw (e, map_files) (give_up-Released p q ms x h)
        | inr (safe, e) ↦
            let mapped = mmap_file W (file_name W location safe) f.length q in
            let left = mmap_file-Leaves (file_name W location safe) f.length q (fresh p ms q h) in
            elim (Result-cases mapped.1) [
              | inl (x, r) ↦
                  rw (e, r, map_files)
                    (give_up-Released p mapped.0 ms (file_error W f x)
                      (Leaves-err p mapped ms q x r h left))
              | inr (m, r) ↦
                  rw (e, r, map_files)
                    (map_files-Released location fs p mapped.0 (ms ++ (m ∷ []))
                      (Leaves-ok p mapped ms q m r h left))
            ]
      ]

  Released-err :
      (p : Process) (x : Process × Result (List Mapping)) (e : Text)
      → x.1 ≡ err e
      → Released p x
      → (k : ℕ) → x.0.is_open k ≡ p.is_open k
  unfolding Released
  Released-err p (q, ok ms) e h r k = cc
  Released-err p (q, err d) e h r k = r k

  -- When mMapTorrent fails, whatever call on whatever file fails, each file that it has opened is
  -- closed: the open files are those of before. No handle from the next on is open before.
  pub mmap_torrent_releases :
      (files : List FileInfo) (location : Text) (p : Process) (e : Text)
      → ((k : ℕ) → p.next ≤ k → p.is_open k ≡ false)
      → (mmap_torrent W files location p).1 ≡ err e
      → (k : ℕ) → (mmap_torrent W files location p).0.is_open k ≡ p.is_open k
  unfolding mmap_torrent Holding holds
  mmap_torrent_releases files location p e f h =
      Released-err p (mmap_torrent W files location p) e h
        (map_files-Released location files p p [] (f, λ k. refl))
