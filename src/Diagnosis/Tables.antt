-- ===== src/Diagnosis/Tables.antt =====
-- A table of trackers is read off a status wherever it stands.
use torrent_web_seeder.Prelude.{
  ℕ, ◌≡◌, refl, sym, ◌∙◌, ap, Bool, Bool-cases, inl, inr, true, false, some, none, Option,
  text_eq_iff, List, [], ◌∷◌, ◌++◌, ◌==◌, if◌then◌else◌, arith, All, Text, codes, text_eq, split,
  split-append, split_at, subst, Lacks, trim, is_space, has_prefix,
}
use torrent_web_seeder.Diagnosis.{
  TrackerLine, parse_tracker, trackers_header, ends_trackers, add_tracker, extract_from,
  extract_tracker_lines,
}
use torrent_web_seeder.Diagnosis.Trackers.{newline, IsPlain, table, extract_table}

false-≢-true : ¬ (false ≡ true)
false-≢-true e = cc

abbrev pub is_lacking : ℕ → Text → Bool
is_lacking b [] = true
is_lacking b (c ∷ s) = if c == b then false else is_lacking b s

-- Decided by a search.
pub Lacks-is_lacking : (b : ℕ) (s : Text) → is_lacking b s ≡ true → Lacks (λ c. c == b) s
Lacks-is_lacking b [] e = tt
Lacks-is_lacking b (c ∷ s) e = elim (Bool-cases (c == b)) [
  | inl y ↦ absurd (false-≢-true (sym (rw y refl) ∙ e))
  | inr n ↦ (n, Lacks-is_lacking b s (sym (rw n refl) ∙ e))
]

add_tracker-append :
    (found : Option TrackerLine) (xs ys : List TrackerLine)
    → add_tracker found xs ++ ys ≡ add_tracker found (xs ++ ys)
unfolding add_tracker
add_tracker-append none xs ys = refl
add_tracker-append (some t) xs ys = refl

-- Lines that the scan has passed keep what they gave, and a title opens a table wherever it stands.
extract_title :
    (inside : Bool) (lines after : List Text) (title : Text)
    → trim is_space title ≡ trackers_header
    → extract_from inside (lines ++ (title ∷ after))
      ≡ extract_from inside lines ++ extract_from true after
unfolding extract_from
extract_title inside [] after title e =
    let same : text_eq (trim is_space title) trackers_header ≡ true =
      (text_eq_iff (trim is_space title) trackers_header).1 e in
    rw (extract_from, same) refl
extract_title inside (x ∷ lines) after title e =
    let open_ = extract_title true lines after title e in
    let shut = extract_title false lines after title e in
    elim (Bool-cases (text_eq (trim is_space x) trackers_header)) [
      | inl y ↦ rw (extract_from, y) open_
      | inr n ↦ elim (Bool-cases inside) [
        | inr outside ↦ rw (extract_from, n, outside) shut
        | inl within ↦ elim (Bool-cases (ends_trackers (trim is_space x))) [
          | inl y ↦ rw (extract_from, n, within, y) shut
          | inr m ↦ elim (Bool-cases (has_prefix (trim is_space x) (codes "URL"))) [
            | inl y ↦ rw (extract_from, n, within, m, y) open_
            | inr k ↦
                rw (extract_from, n, within, m, k)
                  (ap (add_tracker (parse_tracker (trim is_space x))) open_
                    ∙ sym (
                        add_tracker-append (parse_tracker (trim is_space x))
                          (extract_from true lines) (extract_from true after)))
          ]
        ]
      ]
    ]

heading_goes_on : (t : Text) → has_prefix t (codes "URL") ≡ true → ends_trackers t ≡ false
unfolding ends_trackers has_prefix
heading_goes_on [] h = cc
heading_goes_on (c ∷ t) h = rw h (ground arith)

heading_is_no_title :
    (t : Text) → has_prefix t (codes "URL") ≡ true → text_eq t trackers_header ≡ false
unfolding has_prefix
heading_is_no_title t h = elim (Bool-cases (text_eq t trackers_header)) [
  | inr n ↦ n
  | inl y ↦ absurd (
      false-≢-true
        (subst (λ x. has_prefix x (codes "URL") ≡ true) ((text_eq_iff t trackers_header).0 y) h))
]

-- The heading of a table is passed over.
extract_heading :
    (heading : Text) (lines : List Text)
    → has_prefix (trim is_space heading) (codes "URL") ≡ true
    → extract_from true (heading ∷ lines) ≡ extract_from true lines
unfolding extract_from
extract_heading heading lines h =
    rw
      (
        extract_from,
        heading_is_no_title (trim is_space heading) h,
        heading_goes_on (trim is_space heading) h,
        h,
      )
      refl

-- A status has a table of trackers wherever a line reads `Enabled trackers:`, next to white space, and
-- the next begins with URL. The lines up to an empty one are read off as they stand there, between
-- what stands before and what follows: each URL has no quotation mark, and each status neither starts
-- nor ends with white space and is not empty, all on lines of their own. A line is four spaces, the
-- URL in quotation marks, two spaces and the status.
pub extract_tracker_lines-table :
    (before title heading : Text) (ts : List TrackerLine) (after : Text)
    → trim is_space title ≡ trackers_header
    → Lacks (λ c. c == newline) title
    → has_prefix (trim is_space heading) (codes "URL") ≡ true
    → Lacks (λ c. c == newline) heading
    → All IsPlain ts
    → extract_tracker_lines (
        before
        ++ (newline
            ∷ (title ++ (newline ∷ (heading ++ (newline ∷ (table ts ++ (newline ∷ after))))))))
      ≡ extract_tracker_lines before ++ (ts ++ extract_tracker_lines after)
unfolding extract_tracker_lines
extract_tracker_lines-table before title heading ts after titled title_line headed heading_line
      plain =
    let rows = table ts ++ (newline ∷ after) in
    let headed_rows = heading ++ (newline ∷ rows) in
    ap (extract_from false) (
      split_at newline before (title ++ (newline ∷ headed_rows))
      ∙ ap (λ x. split newline before ++ x)
          (split-append newline title headed_rows title_line
            ∙ ap (◌∷◌ title) (split-append newline heading rows heading_line)))
    ∙ extract_title false (split newline before) (heading ∷ split newline rows) title titled
    ∙ ap (λ x. extract_from false (split newline before) ++ x)
        (extract_heading heading (split newline rows) headed ∙ extract_table ts after plain)
