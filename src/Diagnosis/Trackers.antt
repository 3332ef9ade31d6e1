-- ===== src/Diagnosis/Trackers.antt =====
-- The trackers of a status are read off it as they stand there.
use mathlib.Core.List.{append_assoc, reverse, reverse-append, reverse-cons, reverse-reverse}
use torrent_web_seeder.Prelude.{
  ℕ, suc, ◌+◌, ◌≡◌, refl, sym, ◌∙◌, ap, Bool, true, false, some, List, [], ◌∷◌, ◌++◌, ◌==◌, ==_iff,
  length, take, drop, arith, All, Text, codes, text_eq, split, split-append, Lacks, trim, trim_left,
  trim_right, trim_left_front, is_space, has_prefix, index_byte,
}
use torrent_web_seeder.Diagnosis.{
  TrackerLine, parse_tracker, trackers_header, ends_trackers, add_tracker, extract_from,
}

abbrev pub newline : ℕ
newline = 10

-- A URL without quotation marks, a status that neither starts nor ends with white space and is not
-- empty, and both without line ends.
pub record IsPlain (t : TrackerLine) : Type 0 where
  pub unquoted : Lacks (λ c. c == b'"') t.url
  pub url_line : Lacks (λ c. c == newline) t.url
  pub status_line : Lacks (λ c. c == newline) t.status
  pub starts : trim_left is_space t.status ≡ t.status
  pub body : Text
  pub last : ℕ
  pub ends : t.status ≡ body ++ (last ∷ [])
  pub visible : is_space last ≡ false

-- The line of a tracker, and the lines of a table.
abbrev pub tracker_text : TrackerLine → Text
tracker_text t = codes "    \"" ++ (t.url ++ (codes "\"  " ++ t.status))

abbrev pub table : List TrackerLine → Text
table [] = []
table (t ∷ ts) = tracker_text t ++ (newline ∷ table ts)

index_byte-append :
    (b : ℕ) (s t : Text) → Lacks (λ c. c == b) s → index_byte b (s ++ (b ∷ t)) ≡ some (length s)
unfolding index_byte
index_byte-append b [] t l = ground (arith, ==_iff b b)
index_byte-append b (c ∷ s) t (k, l) = rw (k, index_byte-append b s t l) refl

take-append : (s t : Text) → take (length s) (s ++ t) ≡ s
take-append [] [] = refl
take-append [] (c ∷ t) = refl
take-append (c ∷ s) t = ap (◌∷◌ c) (take-append s t)

drop_past : (s : Text) (c : ℕ) (t : Text) → drop (suc (length s)) (s ++ (c ∷ t)) ≡ t
drop_past [] c t = refl
drop_past (d ∷ s) c t = drop_past s c t

trim_right_end :
    (p : ℕ → Bool) (s : Text) (c : ℕ) → p c ≡ false → trim_right p (s ++ (c ∷ [])) ≡ s ++ (c ∷ [])
unfolding trim_right
trim_right_end p s c h =
    ap (λ x. reverse (trim_left p x)) (reverse-append s (c ∷ []))
    ∙ ap reverse (trim_left_front p c (reverse s) h)
    ∙ reverse-cons c (reverse s)
    ∙ ap (λ x. x ++ (c ∷ [])) (reverse-reverse s)

Lacks-append : (p : ℕ → Bool) (s t : Text) → Lacks p s → Lacks p t → Lacks p (s ++ t)
Lacks-append p [] t l m = m
Lacks-append p (c ∷ s) t (k, l) m = (k, Lacks-append p s t l m)

blank_line : (lines : List Text) → extract_from true ([] ∷ lines) ≡ extract_from false lines
unfolding extract_from trim trim_left trim_right text_eq ends_trackers
blank_line lines = refl

module _ (t : TrackerLine) (plain : IsPlain t) where
  -- The line without the spaces in front of it.
  line : Text
  line = b'"' ∷ (t.url ++ (codes "\"  " ++ t.status))

  line_end : line ≡ (b'"' ∷ (t.url ++ (codes "\"  " ++ plain.body))) ++ (plain.last ∷ [])
  unfolding line
  line_end =
      ap (λ x. b'"' ∷ (t.url ++ (codes "\"  " ++ x))) plain.ends
      ∙ ap (◌∷◌ b'"') (sym (append_assoc t.url (codes "\"  " ++ plain.body) (plain.last ∷ [])))

  trim-line : trim is_space (tracker_text t) ≡ line
  unfolding trim trim_left is_space line
  trim-line =
      ap (trim_right is_space) line_end
      ∙ trim_right_end is_space (b'"' ∷ (t.url ++ (codes "\"  " ++ plain.body))) plain.last
          plain.visible
      ∙ sym line_end

  trim_status : trim is_space (codes "  " ++ t.status) ≡ t.status
  unfolding trim trim_left is_space
  trim_status =
      ap (trim_right is_space) (plain.starts ∙ plain.ends)
      ∙ trim_right_end is_space plain.body plain.last plain.visible
      ∙ sym plain.ends

  drop-line : drop (length t.url + 2) line ≡ codes "  " ++ t.status
  unfolding line
  drop-line =
      let two : length t.url + 2 ≡ suc (suc (length t.url)) = omega arith in
      ap (λ n. drop n line) two ∙ drop_past t.url b'"' (codes "  " ++ t.status)

  parse_line : parse_tracker line ≡ some t
  unfolding parse_tracker line
  parse_line =
      rw (parse_tracker, index_byte-append b'"' t.url (codes "  " ++ t.status) plain.unquoted)
        (λ i. some (record {
          url = take-append t.url (codes "\"  " ++ t.status) i;
          status = (ap (trim is_space) drop-line ∙ trim_status) i;
        }))

  not_title : text_eq line trackers_header ≡ false
  unfolding text_eq line
  not_title = refl

  not_end : ends_trackers line ≡ false
  unfolding ends_trackers has_prefix line
  not_end = refl

  not_heading : has_prefix line (codes "URL") ≡ false
  unfolding has_prefix line
  not_heading = refl

  -- Inside the table, the line of a tracker is that tracker.
  extract_line :
      (lines : List Text) → extract_from true (tracker_text t ∷ lines) ≡ t ∷ extract_from true lines
  unfolding extract_from
  extract_line lines =
      rw (extract_from, trim-line)
        (rw not_title (rw not_end (rw not_heading (rw parse_line (unfold add_tracker in refl)))))

  tracker_text-Lacks : Lacks (λ c. c == newline) (tracker_text t)
  tracker_text-Lacks =
      let rest =
        Lacks-append _ t.url (codes "\"  " ++ t.status) plain.url_line
          (refl, (refl, (refl, plain.status_line))) in
      (refl, (refl, (refl, (refl, (refl, rest)))))

pub extract_table :
    (ts : List TrackerLine) (after : Text)
    → All IsPlain ts
    → extract_from true (split newline (table ts ++ (newline ∷ after)))
      ≡ ts ++ extract_from false (split newline after)
extract_table [] after plain =
    ap (extract_from true) (split-append newline [] after tt) ∙ blank_line (split newline after)
extract_table (t ∷ ts) after (p, plain) =
    ap (λ x. extract_from true (split newline x))
      (append_assoc (tracker_text t) (newline ∷ table ts) (newline ∷ after))
    ∙ ap (extract_from true) (
        split-append newline (tracker_text t) (table ts ++ (newline ∷ after))
          (tracker_text-Lacks t p))
    ∙ extract_line t p (split newline (table ts ++ (newline ∷ after)))
    ∙ ap (◌∷◌ t) (extract_table ts after plain)
