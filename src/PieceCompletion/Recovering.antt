-- ===== src/PieceCompletion/Recovering.antt =====
-- What NewPieceCompletion builds from the table of pieces.
use torrent_web_seeder.Prelude.{
  ℕ, zero, suc, ◌+◌, ◌<◌, ◌≡◌, refl, sym, ◌∙◌, ap, subst, Bool, true, false, inl, inr, Bool-cases,
  none, some, List, [], ◌∷◌, ◌==◌, ==_iff, if◌then◌else◌, length, get_elem?, get_or, set, replicate,
  length-set, get_or-set, get_elem?_of_lt, arith, two_63, lookup, nat_eq,
}
use torrent_web_seeder.Files.{Info, FileRange}
use torrent_web_seeder.Completions.{Completions, is_completed_file}
use torrent_web_seeder.Completions.Scan.{count_done, count_done-set_true}
use torrent_web_seeder.Completions.Invariant.{IsConsistent, MarksHold}
use torrent_web_seeder.Completions.Uncompleting.{ranges}
use torrent_web_seeder.Completions.Runs.{IsReady}
use torrent_web_seeder.PieceCompletion.{recover_rows, recover_completions}

-- The rows of a table with a unique index, all of pieces that the torrent has.
abbrev pub AreRows : ℕ → List (ℕ × Bool) → Type 0
AreRows n [] = Unit {0}
AreRows n ((i, b) ∷ rows) = (i < n) × (lookup i rows ≡ none) × AreRows n rows

-- The record that a table has of a piece.
abbrev pub is_on_record : List (ℕ × Bool) → ℕ → Bool
is_on_record rows j = elim (lookup j rows) [ none ↦ false | some b ↦ b ]

get_or-replicate : (n j : ℕ) → get_or (replicate n false) j false ≡ false
get_or-replicate zero j = refl
get_or-replicate (suc n) zero = refl
get_or-replicate (suc n) (suc j) = get_or-replicate n j

length-replicate : (n : ℕ) → length (replicate n false) ≡ n
length-replicate zero = refl
length-replicate (suc n) = ap suc (length-replicate n)

count_done-replicate : (n : ℕ) → count_done (replicate n false) ≡ 0
unfolding count_done
count_done-replicate zero = refl
count_done-replicate (suc n) = ground (arith, count_done-replicate n)

is_on_record_nil : (j : ℕ) → is_on_record [] j ≡ false
unfolding lookup
is_on_record_nil j = refl

is_on_record-false :
    (i j : ℕ) (rows : List (ℕ × Bool))
    → lookup i rows ≡ none
    → is_on_record ((i, false) ∷ rows) j ≡ is_on_record rows j
unfolding lookup
is_on_record-false i j rows h = ground arith

is_on_record-true :
    (i j : ℕ) (rows : List (ℕ × Bool))
    → is_on_record ((i, true) ∷ rows) j ≡ (if i == j then true else is_on_record rows j)
unfolding lookup
is_on_record-true i j rows = ground arith

is_on_record_new :
    (i j : ℕ) (rows : List (ℕ × Bool))
    → lookup i rows ≡ none
    → is_on_record rows j ≡ true
    → (i == j) ≡ false
is_on_record_new i j rows h e = elim (Bool-cases (i == j)) [
  | inr n ↦ n
  | inl y ↦
      let gone : lookup j rows ≡ none = subst (λ k. lookup k rows ≡ none) ((==_iff i j).0 y) h in
      ground arith
]

recover_rows_step :
    (i count : ℕ) (rows : List (ℕ × Bool)) (pieces : List Bool)
    → i < length pieces
    → recover_rows ((i, true) ∷ rows) pieces count
      ≡ recover_rows rows (set pieces i true) (count + 1)
unfolding recover_rows
recover_rows_step i count rows pieces lt = ground arith

-- The loop never panics, and adds the rows to the pieces it starts with.
record Recovered (rows : List (ℕ × Bool)) (pieces : List Bool) (out : List Bool × ℕ) : Type 0 where
  sized : length out.0 ≡ length pieces
  counted : out.1 ≡ count_done out.0
  known :
      (j : ℕ)
      → j < length pieces
      → get_or out.0 j false ≡ (if is_on_record rows j then true else get_or pieces j false)

recover_rows_total :
    (rows : List (ℕ × Bool)) (pieces : List Bool) (count : ℕ)
    → AreRows (length pieces) rows
    → ((j : ℕ) → is_on_record rows j ≡ true → get_or pieces j false ≡ false)
    → count ≡ count_done pieces
    → (out : List Bool × ℕ) × (recover_rows rows pieces count ≡ some out)
      × Recovered rows pieces out
unfolding recover_rows
recover_rows_total [] pieces count r f c = (
  (pieces, count),
  refl,
  record { sized = refl; counted = c; known = λ j h. rw (is_on_record_nil j) refl },
)
recover_rows_total ((i, false) ∷ rows) pieces count (lt, new, r) f c =
    let (out, run, done) =
      recover_rows_total rows pieces count r (λ j h. f j (is_on_record-false i j rows new ∙ h)) c in
    (
      out,
      run,
      record {
        sized = done.sized;
        counted = done.counted;
        known = λ j h. rw (is_on_record-false i j rows new) (done.known j h);
      },
    )
recover_rows_total ((i, true) ∷ rows) pieces count (lt, new, r) f c =
    let missing : get_elem? pieces i ≡ some false =
      get_elem?_of_lt pieces i false lt
      ∙ ap some (f i (is_on_record-true i i rows ∙ ground arith)) in
    let (out, run, done) =
      recover_rows_total rows (set pieces i true) (count + 1) (rw (length-set pieces i true) r)
        (λ j h. ground (
          arith,
          f j,
          get_or-set pieces i j true false,
          is_on_record-true i j rows,
          is_on_record_new i j rows new h,
        ))
        (ap (λ k. k + 1) c ∙ sym (count_done-set_true pieces i missing)) in
    (
      out,
      recover_rows_step i count rows pieces lt ∙ run,
      record {
        sized = done.sized ∙ length-set pieces i true;
        counted = done.counted;
        known = λ j h. ground (
          arith,
          done.known j,
          length-set pieces i true,
          get_or-set pieces i j true false,
          is_on_record-true i j rows,
          f i,
        );
      },
    )

recovered : List Bool × ℕ → Info → Completions
recovered out info = record {
  pieces = out.0;
  completed_count = out.1;
  completed = out.1 == length out.0;
  info = info;
  completed_files = [];
}

no_marks : (pieces : List Bool) (rs : List FileRange) → MarksHold [] pieces rs
unfolding is_completed_file lookup
no_marks pieces [] = tt
no_marks pieces (r ∷ rs) = ((λ h. ground arith), no_marks pieces rs)

recovered-IsConsistent :
    (out : List Bool × ℕ) (info : Info)
    → out.1 ≡ count_done out.0
    → length out.0 < two_63
    → IsConsistent (ranges info) (recovered out info)
unfolding recovered
recovered-IsConsistent out info c small = record {
  counted = c;
  flagged = rw c refl;
  bounded = small;
  marks = no_marks out.0 (ranges info);
}

-- From a table of rows with distinct indices, all of them of pieces that the torrent has,
-- NewPieceCompletion builds its state without a panic: the pieces that are complete are those on
-- record as complete, and the counters are exact.
pub recover_completions-IsReady :
    (rows : List (ℕ × Bool)) (info : Info)
    → AreRows info.num_pieces rows
    → info.num_pieces < two_63
    → (c : Completions) × (recover_completions rows info ≡ some c)
      × IsReady info info.num_pieces c
      × ((j : ℕ) → j < info.num_pieces → get_or c.pieces j false ≡ is_on_record rows j)
unfolding recover_completions
recover_completions-IsReady rows info r small =
    let n = info.num_pieces in
    let start = replicate n false in
    let (out, run, done) =
      recover_rows_total rows start 0 (rw (length-replicate n) r) (λ j h. get_or-replicate n j)
        (sym (count_done-replicate n)) in
    (
      recovered out info,
      unfold recovered in rw run refl,
      record {
        same = unfold recovered in refl;
        consistent =
            recovered-IsConsistent out info done.counted
              (omega (arith, done.sized, length-replicate n));
        sized = unfold recovered in done.sized ∙ length-replicate n;
      },
      λ j lt.
          unfold recovered in
          done.known j (omega (arith, length-replicate n))
          ∙ rw (get_or-replicate n j) (ground arith),
    )
