-- ===== src/Tests/Marks.antt =====
-- server/services/piece_completion.go on a torrent of two files.
use torrent_web_seeder.Prelude.{
  get_elem?, ℕ, ◌*◌, ◌/◌, ◌<◌, ◌≡◌, refl, sym, subst, true, false, some, none, List, [], ◌∷◌, ◌==◌,
  if◌then◌else◌, arith, lookup, insert, delete, add64, sub64, lt64, le64, quot64, set, codes, Text,
  text_eq, join, ◌∙◌, ap,
}
use torrent_web_seeder.Files.{FileRange, Info, full_path, ranges_from, file_ranges, in_range}
use torrent_web_seeder.Files.Pieces.{IsLayout}
use torrent_web_seeder.Completions.{
  range_complete, Completions, complete, uncomplete, get_completed_files,
  is_piece_in_completed_file, is_completed_file,
}
use torrent_web_seeder.Completions.Scan.{count_done, range_done}
use torrent_web_seeder.Completions.Invariant.{IsConsistent}
use torrent_web_seeder.Completions.Uncompleting.{ranges, IsUnmarked, uncomplete-IsConsistent}
use torrent_web_seeder.Completions.Reporting.{UniquePaths, report, get_completed_files-report}
use torrent_web_seeder.Completions.Boundary.{range_complete_waits}
use torrent_web_seeder.Completions.Runs.{
  Event, completed, uncompleted, polled, step, run, IsReady, run-IsReady, single_file_unprotected,
}

program : Unit {0}
unfolding complete uncomplete get_completed_files is_piece_in_completed_file is_completed_file step
    run full_path ranges_from file_ranges in_range lookup insert delete add64 sub64 lt64 le64 quot64
    text_eq join report count_done range_done
program = tt

-- A file of 7 bytes and one of 6, in pieces of 4 bytes: the second piece belongs to both.
abbrev pub two_files : Info
two_files = record {
  name = codes "t";
  files =
      record { path = codes "a" ∷ []; length = 7 }
      ∷ record { path = codes "b" ∷ []; length = 6 }
      ∷ [];
  piece_length = 4;
  num_pieces = 4;
  total_length = 13;
  piece_offset = λ i. 4 * i;
  piece_size = λ i. if i == 3 then 1 else 4;
}

abbrev fresh : Info → Completions
fresh info = record {
  pieces = false ∷ false ∷ false ∷ false ∷ [];
  completed_count = 0;
  completed = false;
  info = info;
  completed_files = [];
}

pub two_files-IsLayout : IsLayout two_files
two_files-IsLayout = record { positive = omega arith; small = omega arith; fits = omega arith }

pub impossible : false ≡ true → ⊥
impossible h = ground arith

differ : (p q : Text) → text_eq p q ≡ false → text_eq q q ≡ true → ¬ (p ≡ q)
differ p q apart same h = impossible (sym apart ∙ subst (λ x. text_eq x q ≡ true) (sym h) same)

pub two_files-UniquePaths : UniquePaths (ranges two_files)
unfolding program
two_files-UniquePaths = (
  ((λ h. refl), ((λ h. absurd (differ (codes "t/b") (codes "t/a") refl refl h)), tt)),
  (((λ h. absurd (differ (codes "t/a") (codes "t/b") refl refl h)), ((λ h. refl), tt)), tt),
)

fresh-IsReady : IsReady two_files 4 (fresh two_files)
unfolding program
fresh-IsReady = record {
  same = refl;
  consistent = record {
    counted = refl;
    flagged = refl;
    bounded = omega arith;
    marks = ((λ h. absurd (impossible h)), ((λ h. absurd (impossible h)), tt));
  };
  sized = refl;
}

abbrev events : List Event
events = completed 0 ∷ completed 1 ∷ polled ∷ uncompleted 1 ∷ completed 3 ∷ []

run_events :
    run (completed 0 ∷ completed 1 ∷ []) (fresh two_files)
    ≡ some (record (fresh two_files) {
      pieces = true ∷ true ∷ false ∷ false ∷ [];
      completed_count = 2;
    })
unfolding program
run_events = refl

fresh-IsConsistent : IsConsistent (ranges two_files) (fresh two_files)
fresh-IsConsistent = fresh-IsReady.consistent

run-IsReady_example :
    (t : Completions) × (run events (fresh two_files) ≡ some t) × IsReady two_files 4 t
run-IsReady_example =
    run-IsReady two_files 4 two_files-IsLayout two_files-UniquePaths events (fresh two_files)
      fresh-IsReady (omega arith, (omega arith, (omega arith, (omega arith, tt))))

-- The first file is complete and marked.
abbrev marked : Completions
marked = record (fresh two_files) {
  pieces = true ∷ true ∷ false ∷ false ∷ [];
  completed_count = 2;
  completed_files = (codes "t/a", true) ∷ [];
}

run-marked : run (completed 0 ∷ completed 1 ∷ polled ∷ []) (fresh two_files) ≡ some marked
unfolding program
run-marked = refl

marked-IsReady : IsReady two_files 4 marked
marked-IsReady =
    let (t, e, r) =
      run-IsReady two_files 4 two_files-IsLayout two_files-UniquePaths
        (completed 0 ∷ completed 1 ∷ polled ∷ []) (fresh two_files) fresh-IsReady
        (omega arith, (omega arith, tt)) in
    subst (IsReady two_files 4)
      (ap (λ o. elim o [ none ↦ marked | some x ↦ x ]) (sym e ∙ run-marked)) r

uncompleted_marked :
    uncomplete 1 marked
    ≡ some (
      record marked {
        pieces = true ∷ false ∷ false ∷ false ∷ [];
        completed_count = 1;
        completed_files = [];
      },
      codes "t/a" ∷ [],
    )
unfolding program
uncompleted_marked = refl

uncomplete-IsConsistent_example :
    (t : Completions) × (paths : List Text) × (uncomplete 1 marked ≡ some (t, paths))
    × IsConsistent (ranges two_files) t
    × (t.pieces ≡ set marked.pieces 1 false)
    × IsUnmarked 1 marked t
uncomplete-IsConsistent_example =
    uncomplete-IsConsistent 1 marked two_files-IsLayout marked-IsReady.consistent (omega arith)

get_completed_files-report_example :
    (t : Completions) × (get_completed_files marked ≡ some (t, report two_files marked.pieces))
    × IsConsistent (ranges two_files) t
    × (t.pieces ≡ marked.pieces)
get_completed_files-report_example =
    get_completed_files-report marked two_files-IsLayout two_files-UniquePaths
      marked-IsReady.consistent

-- A first file of 8 bytes fills the first two pieces; the third is missing.
abbrev filling : Info
filling = record two_files {
  files =
      record { path = codes "a" ∷ []; length = 8 }
      ∷ record { path = codes "b" ∷ []; length = 5 }
      ∷ [];
}

filling-IsLayout : IsLayout filling
filling-IsLayout = record { positive = omega arith; small = omega arith; fits = omega arith }

range_complete_waits_example :
    ((x : ℕ) → x < 8 → x / 4 < 8 / 4)
    × (rs : List FileRange) × (r : FileRange) × (file_ranges filling ≡ some rs)
    × (get_elem? rs 0 ≡ some r)
    × (r.path ≡ full_path (codes "t") (record { path = codes "a" ∷ []; length = 8 }))
    × (range_complete r (true ∷ true ∷ false ∷ true ∷ []) ≡ some false)
range_complete_waits_example =
    range_complete_waits filling 0 (record { path = codes "a" ∷ []; length = 8 })
      (true ∷ true ∷ false ∷ true ∷ []) 8 filling-IsLayout refl refl (omega arith) refl refl

abbrev single : Info
single = record two_files { files = [] }

abbrev single_done : Completions
single_done = record (fresh single) {
  pieces = true ∷ true ∷ true ∷ true ∷ [];
  completed_count = 4;
  completed = true;
}

run-single :
    run (completed 0 ∷ completed 1 ∷ completed 2 ∷ completed 3 ∷ polled ∷ []) (fresh single)
    ≡ some single_done
unfolding program
run-single = refl

single_file_unprotected_example : is_piece_in_completed_file 2 single_done ≡ some false
single_file_unprotected_example =
    single_file_unprotected (completed 0 ∷ completed 1 ∷ completed 2 ∷ completed 3 ∷ polled ∷ [])
      (fresh single) single_done 2 refl refl run-single
