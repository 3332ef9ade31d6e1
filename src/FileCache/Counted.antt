-- ===== src/FileCache/Counted.antt =====
-- Counting the files on record decides whether a directory is complete.
use mathlib.Core.List.{append_assoc}
use torrent_web_seeder.Prelude.{
  ℕ, ◌≤◌, ◌<◌, ◌≡◌, ◌↔◌, refl, sym, ◌∙◌, ap, Bool, true, false, ◌&&◌, ◌||◌, not, ◌==◌, ◌+◌, map,
  if◌then◌else◌, List, [], ◌∷◌, ◌++◌, leb, leb→le, length, select, arith, Text, codes, has_prefix,
  ok, elem, Unique, elem-select, Unique-select, select_agree, count_all,
}
use torrent_web_seeder.FileCache.{
  present, Disk, database_path, count_completed, enough, is_dir_complete_from, is_dir_complete,
}

-- The paths below a directory; the root is the empty path.
unfoldable pub below : Text → List Text → List Text
below [] every = every
below (c ∷ dir_path) every = select (λ x. has_prefix x (c ∷ dir_path ++ codes "/")) every

-- The database of a torrent can be read, and has these files on record.
unfoldable pub OnRecord : Disk → Text → List Text → Type 0
OnRecord D h recorded =
    (dir : Text) × (db : D.Conn) × (D.get_dir h ≡ ok dir)
    × (D.stat (database_path dir) ≡ present)
    × (D.open_conn (database_path dir) ≡ ok db)
    × (D.rows db ≡ ok recorded)

-- The pattern of a directory matches those paths of a torrent that are below it.
unfoldable pub MatchesBelow : Disk → Text → List Text → Type 0
MatchesBelow D dir_path every =
    (x : Text)
    → elem x every ≡ true
    → D.like x (dir_path ++ codes "/%") ≡ has_prefix x (dir_path ++ codes "/")

abbrev pub lower_case : Text → Text
lower_case s = map (λ c. if leb b'A' c && leb c b'Z' then c + 32 else c) s

-- No wildcard of LIKE.
unfoldable pub is_literal : Text → Bool
is_literal [] = true
is_literal (c ∷ s) = not (c == b'%' || c == b'_') && is_literal s

-- LIKE of a literal and a final %, as SQLite documents it: a prefix, in any case of ASCII letters.
abbrev pub LikesPrefixes : Disk → Type 0
LikesPrefixes D =
    (x p : Text)
    → is_literal p ≡ true
    → D.like x (p ++ codes "%") ≡ has_prefix (lower_case x) (lower_case p)

-- No path is below the directory but for the case of its letters.
abbrev pub CaseApart : Text → List Text → Type 0
CaseApart dir_path every =
    (x : Text)
    → elem x every ≡ true
    → has_prefix (lower_case x) (lower_case (dir_path ++ codes "/"))
      ≡ has_prefix x (dir_path ++ codes "/")

pub LikesPrefixes-MatchesBelow :
    (D : Disk) (dir_path : Text) (every : List Text)
    → LikesPrefixes D
    → is_literal (dir_path ++ codes "/") ≡ true
    → CaseApart dir_path every
    → MatchesBelow D dir_path every
unfolding MatchesBelow
LikesPrefixes-MatchesBelow D dir_path every likes literal apart x i =
    ap (D.like x) (sym (append_assoc dir_path (codes "/") (codes "%")))
    ∙ likes x (dir_path ++ codes "/") literal
    ∙ apart x i

and_both : (a b : Bool) → (a && b) ≡ true → (a ≡ true) × (b ≡ true)
and_both true b h = (refl, h)
and_both false b h = cc

module _ (D : Disk) (recorded every : List Text) (once : Unique recorded) (apart : Unique every)
    (own : (x : Text) → elem x recorded ≡ true → elem x every ≡ true) where
  selected :
      (p : Text → Bool) (x : Text) (xs : List Text)
      → elem x (select p xs) ≡ true
      → (p x ≡ true) × (elem x xs ≡ true)
  selected p x xs i = and_both (p x) (elem x xs) (sym (elem-select p x xs) ∙ i)

  select_both :
      (p : Text → Bool) (x : Text) (xs : List Text)
      → p x ≡ true
      → elem x xs ≡ true
      → elem x (select p xs) ≡ true
  select_both p x xs a i = elem-select p x xs ∙ rw (a, i) refl

  count_selected :
      (p q : Text → Bool)
      → ((x : Text) → elem x every ≡ true → q x ≡ p x)
      → (length (select p every) ≤ length (select q recorded))
        ↔ ((x : Text) → elem x (select p every) ≡ true → elem x recorded ≡ true)
  count_selected p q same =
      let (only, if_all) =
        count_all (select p recorded) (select p every) (Unique-select p recorded once)
          (Unique-select p every apart)
          (λ x i. let (a, r) = selected p x recorded i in select_both p x every a (own x r)) in
      rw (select_agree q p recorded (λ x i. same x (own x i))) (
        λ long x i. (selected p x recorded (only long x i)).1,
        λ all. if_all (λ x i. select_both p x recorded (selected p x every i).0 (all x i)),
      )

  count_completed_exact :
      (dir_path : Text)
      → MatchesBelow D dir_path every
      → (length (below dir_path every) ≤ count_completed D dir_path recorded)
        ↔ ((x : Text) → elem x (below dir_path every) ≡ true → elem x recorded ≡ true)
  unfolding count_completed below MatchesBelow
  count_completed_exact [] m = count_all recorded every once apart own
  count_completed_exact (c ∷ dir_path) m =
      count_selected (λ x. has_prefix x (c ∷ dir_path ++ codes "/"))
        (λ x. D.like x (c ∷ dir_path ++ codes "/%")) m

is_dir_complete_read :
    (D : Disk) (h dir_path : Text) (n : ℕ) (recorded : List Text)
    → OnRecord D h recorded
    → 0 < n
    → is_dir_complete D h dir_path n ≡ ok (leb n (count_completed D dir_path recorded))
unfolding is_dir_complete is_dir_complete_from enough OnRecord
is_dir_complete_read D h dir_path n recorded (dir, db, at, there, opened, read) positive =
    let more : leb n 0 ≡ false = ground arith in
    rw (more, at)
      (rw (is_dir_complete_from, there)
        (rw (is_dir_complete_from, opened) (rw (enough, read) refl)))

ok_true : {b : Bool} → ok b ≡ ok true → b ≡ true
ok_true e = cc

leb_iff : (a b : ℕ) → (ok (leb a b) ≡ ok true) ↔ (a ≤ b)
leb_iff a b = (λ e. leb→le a b (ok_true e), λ l. ap ok (ground arith))

-- Of a torrent whose paths are all different, with some path below a directory and a database that
-- can be read, that directory is reported complete exactly when every path below it is on record: it
-- is enough to count, as the record has no path twice and none of another torrent.
pub is_dir_complete_exact :
    (D : Disk) (h dir_path : Text) (recorded every : List Text)
    → OnRecord D h recorded
    → Unique recorded
    → Unique every
    → ((x : Text) → elem x recorded ≡ true → elem x every ≡ true)
    → MatchesBelow D dir_path every
    → 0 < length (below dir_path every)
    → (is_dir_complete D h dir_path (length (below dir_path every)) ≡ ok true)
      ↔ ((x : Text) → elem x (below dir_path every) ≡ true → elem x recorded ≡ true)
is_dir_complete_exact D h dir_path recorded every record_read once apart own m some_path =
    let n = length (below dir_path every) in
    let (only, if_all) = count_completed_exact D recorded every once apart own dir_path m in
    let (to, from) = leb_iff n (count_completed D dir_path recorded) in
    rw (is_dir_complete_read D h dir_path n recorded record_read some_path)
      (λ e. only (to e), λ all. from (if_all all))
