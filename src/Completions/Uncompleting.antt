-- ===== src/Completions/Uncompleting.antt =====
-- `Uncomplete`: the piece is missing, no file that includes it is marked, the other marks hold.
use torrent_web_seeder.Prelude.{
  ◌&&◌, text_eq_iff, ℕ, ◌<◌, ◌≡◌, refl, sym, ◌∙◌, ap, subst, Bool, true, false, some, List, [], ◌∷◌,
  length, get_elem?, get_or, set, set_self, length-set, get_elem?_of_lt, lt-length_of_some, All,
  arith, delete, nat_eq, Text, text_Eq, sub64, sub64_exact,
}
use torrent_web_seeder.Files.{Info, FileInfo, FileRange, ranges_from}
use torrent_web_seeder.Files.Pieces.{IsOrdered, IsLayout, file_ranges_total, ranges_from-IsOrdered}
use torrent_web_seeder.Completions.{
  Completions, is_completed_file, is_empty, uncomplete_ranges, uncomplete_files, uncomplete,
}
use torrent_web_seeder.Completions.Scan.{count_done, count_done-le, count_done-set_false}
use torrent_web_seeder.Completions.Invariant.{IsConsistent, is_completed_file-delete}
use torrent_web_seeder.Completions.Clearing.{
  Cleared, uncomplete_ranges_shrinks, uncomplete_ranges-Cleared, marks_without, Cleared-of_missing,
}

-- `Uncomplete` of a piece that the torrent has, in a torrent of several files.
uncompleted_state : ℕ → Completions → List (Text × Bool) → Completions
uncompleted_state i s m = record s {
  completed_count = sub64 s.completed_count 1;
  pieces = set s.pieces i false;
  completed = false;
  completed_files = m;
}

uncomplete_again :
    (i : ℕ) (s : Completions) → get_elem? s.pieces i ≡ some false → uncomplete i s ≡ some (s, [])
unfolding uncomplete
uncomplete_again i s h = rw (h, uncomplete)

uncomplete_new :
    (i : ℕ) (s : Completions) (m : List (Text × Bool)) (paths : List Text)
    → get_elem? s.pieces i ≡ some true
    → uncomplete_files i s.info s.completed_files ≡ some (m, paths)
    → uncomplete i s ≡ some (uncompleted_state i s m, paths)
unfolding uncomplete uncompleted_state
uncomplete_new i s m paths h k = rw (h, uncomplete) (rw k)

-- The ranges of the torrent's files, as the loops see them.
abbrev pub ranges : Info → List FileRange
ranges info = ranges_from info.name info.piece_length 0 info.files

pub ranges-IsOrdered : (info : Info) → IsLayout info → All IsOrdered (ranges info)
ranges-IsOrdered info h =
    ranges_from-IsOrdered info.name info.piece_length h.positive h.small 0 info.files
      (omega (arith, h.fits))

-- No file that includes the piece is marked: of several files none whose range holds it, and not the
-- single file of a torrent without a list of files.
abbrev pub Unmarked : ℕ → Info → List (Text × Bool) → Type 0
Unmarked i info m =
    Cleared i m (ranges info) × ((is_empty info.files && is_completed_file m info.name) ≡ false)

-- Where the files' loop ends: never in a panic, and with what the invariant needs.
uncomplete_files_total :
    (i : ℕ) (info : Info) (m : List (Text × Bool))
    → IsLayout info
    → (m' : List (Text × Bool)) × (paths : List Text) × (uncomplete_files i info m
        ≡ some (m', paths))
      × ((path : Text) → is_completed_file m' path ≡ true → is_completed_file m path ≡ true)
      × Unmarked i info m'
uncomplete_files_total i info m h = go info.files refl
  where
    go :
        (fs : List FileInfo)
        → info.files ≡ fs
        → (m' : List (Text × Bool)) × (paths : List Text) × (uncomplete_files i info m
            ≡ some (m', paths))
          × ((path : Text) → is_completed_file m' path ≡ true → is_completed_file m path ≡ true)
          × Unmarked i info m'
    go [] e = (
      delete info.name m,
      info.name ∷ [],
      unfold uncomplete_files in rw (ap is_empty e) refl,
      λ path marked. ground (arith, is_completed_file-delete info.name path m),
      (
        subst (λ fs. Cleared i (delete info.name m) (ranges_from info.name info.piece_length 0 fs))
            (sym e) (unfold ranges_from in tt),
        ground (
          arith,
          is_completed_file-delete info.name info.name m,
          text_eq_iff info.name info.name,
        ),
      ),
    )
    go (f ∷ fs) e = (
      (uncomplete_ranges i (ranges info) m).0,
      (uncomplete_ranges i (ranges info) m).1,
      unfold uncomplete_files in rw (ap is_empty e, file_ranges_total info h) refl,
      uncomplete_ranges_shrinks i (ranges info) m,
      (uncomplete_ranges-Cleared i (ranges info) m, rw (ap is_empty e) refl),
    )

uncompleted_state-IsConsistent :
    (i : ℕ) (s : Completions) (m : List (Text × Bool))
    → IsLayout s.info
    → IsConsistent (ranges s.info) s
    → get_elem? s.pieces i ≡ some true
    → ((path : Text)
        → is_completed_file m path ≡ true
        → is_completed_file s.completed_files path ≡ true)
    → Unmarked i s.info m
    → IsConsistent (ranges s.info) (uncompleted_state i s m)
unfolding uncompleted_state
uncompleted_state-IsConsistent i s m h v e sub c =
    let counts = count_done-set_false s.pieces i e in
    let limit = count_done-le s.pieces in
    let exact : sub64 s.completed_count 1 ≡ count_done (set s.pieces i false) =
      ap (λ n. sub64 n 1) v.counted
      ∙ sub64_exact _ 1 (omega arith) (omega (arith, v.bounded))
      ∙ omega arith in
    record {
      counted = exact;
      flagged = rw (length-set s.pieces i false) (ground arith);
      bounded = rw (length-set s.pieces i false) v.bounded;
      marks =
          marks_without i s.pieces s.completed_files m (ranges s.info)
            (omega (arith, v.bounded, lt-length_of_some s.pieces i true e))
            (ranges-IsOrdered s.info h) sub c.0 v.marks;
    }

-- What `Uncomplete` leaves unmarked: each of several files whose range holds the piece, and the
-- single file of a torrent without a list of files, if the piece was complete.
pub record IsUnmarked (i : ℕ) (s t : Completions) : Type 0 where
  pub several : Cleared i t.completed_files (ranges s.info)
  pub single :
      (get_or s.pieces i false
        && is_empty s.info.files
        && is_completed_file t.completed_files s.info.name)
      ≡ false

-- In a consistent state of a torrent with a valid layout, `Uncomplete` of a piece that the
-- torrent has does not panic, marks the piece as missing, changes no other, and keeps the counters
-- exact. In a torrent of several files it leaves no file marked complete that includes the piece,
-- and keeps the marks true; in a single-file torrent it leaves the file unmarked if the piece was
-- complete.
pub uncomplete-IsConsistent :
    (i : ℕ) (s : Completions)
    → IsLayout s.info
    → IsConsistent (ranges s.info) s
    → i < length s.pieces
    → (t : Completions) × (paths : List Text) × (uncomplete i s ≡ some (t, paths))
      × IsConsistent (ranges s.info) t
      × (t.pieces ≡ set s.pieces i false)
      × IsUnmarked i s t
uncomplete-IsConsistent i s h v lt =
    go (get_or s.pieces i false) (get_elem?_of_lt s.pieces i false lt)
  where
    go :
        (b : Bool)
        → get_elem? s.pieces i ≡ some b
        → (t : Completions) × (paths : List Text) × (uncomplete i s ≡ some (t, paths))
          × IsConsistent (ranges s.info) t
          × (t.pieces ≡ set s.pieces i false)
          × IsUnmarked i s t
    go false e = (
      s,
      [],
      uncomplete_again i s e,
      v,
      sym (set_self s.pieces i false e),
      record {
        several =
            Cleared-of_missing i s.pieces s.completed_files (ranges s.info)
              (omega (arith, v.bounded)) e (ranges-IsOrdered s.info h) v.marks;
        single = ground (arith, get_elem?_of_lt s.pieces i false lt);
      },
    )
    go true e =
        let (m, paths, run, sub, c) = uncomplete_files_total i s.info s.completed_files h in
        (
          uncompleted_state i s m,
          paths,
          uncomplete_new i s m paths e run,
          uncompleted_state-IsConsistent i s m h v e sub c,
          unfold uncompleted_state in refl,
          unfold uncompleted_state in (record { several = c.0; single = ground (arith, c.1) }),
        )
