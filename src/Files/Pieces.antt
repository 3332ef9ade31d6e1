-- ===== src/Files/Pieces.antt =====
-- The ranges of pieces cover the files: each byte of a file lies in a piece of the file's range.
use native.Mathlib.Nat.{le_trans, le-div_iff_mul-le, div-mul-le_self, div-le_self}
use mathlib.Core.Option.{some-injective}
use torrent_web_seeder.Prelude.{
  Bool, inl, inr, Bool-cases, map, select, if◌then◌else◌, ℕ, zero, suc, ◌+◌, ◌/◌, ◌≤◌, ◌<◌, ◌≡◌,
  refl, some, List, [], ◌∷◌, All, take, get_elem?, arith, Text, two_63, add64_exact, quot64_exact,
}
use torrent_web_seeder.Files.{FileInfo, Info, FileRange, full_path, ranges_from, file_ranges}

-- A range as the layout gives it: not empty, and within the positive 64-bit integers.
pub record IsOrdered (r : FileRange) : Type 0 where
  pub ordered : r.start_piece ≤ r.end_piece
  pub bounded : r.end_piece < two_63

abbrev pub total_length : List FileInfo → ℕ
total_length [] = 0
total_length (f ∷ fs) = f.length + total_length fs

-- The layout of a torrent that the program can work with: a positive piece length, and file
-- lengths whose sum is an int64.
pub record IsLayout (info : Info) : Type 0 where
  pub positive : 0 < info.piece_length
  pub small : info.piece_length < two_63
  pub fits : total_length info.files < two_63

pub file_ranges_total :
    (info : Info)
    → IsLayout info
    → file_ranges info ≡ some (ranges_from info.name info.piece_length 0 info.files)
unfolding file_ranges
file_ranges_total info h = ground arith

-- The range of a file at offset `o`.
abbrev pub range_at : Text → ℕ → ℕ → FileInfo → FileRange
range_at name pl o f = record {
  path = full_path name f;
  start_piece = o / pl;
  end_piece = (o + f.length) / pl;
}

-- `o` is the offset of the first file.
module _ (name : Text) (pl : ℕ) (pos : 0 < pl) (small : pl < two_63) where
  ranges_from_step :
      (o : ℕ) (f : FileInfo) (fs : List FileInfo)
      → o + total_length (f ∷ fs) < two_63
      → ranges_from name pl o (f ∷ fs)
        ≡ range_at name pl o f ∷ ranges_from name pl (o + f.length) fs
  unfolding ranges_from
  ranges_from_step o f fs h =
      ground (arith, add64_exact o f.length, quot64_exact o pl, quot64_exact (o + f.length) pl)

  pub quot_mono : (a b : ℕ) → a ≤ b → a / pl ≤ b / pl
  quot_mono a b h = (le-div_iff_mul-le pos).1 (le_trans (div-mul-le_self a pl) h)

  pub ranges_from-IsOrdered :
      (o : ℕ) (fs : List FileInfo)
      → o + total_length fs < two_63
      → All IsOrdered (ranges_from name pl o fs)
  ranges_from-IsOrdered o [] h = unfold ranges_from in tt
  ranges_from-IsOrdered o (f ∷ fs) h = rw (ranges_from_step o f fs h) (
    record {
      ordered = quot_mono o (o + f.length) (omega arith);
      bounded = omega (arith, div-le_self (o + f.length) pl);
    },
    ranges_from-IsOrdered (o + f.length) fs (omega arith),
  )

  pub ranges_from_at :
      (o : ℕ) (fs : List FileInfo) (k : ℕ) (f : FileInfo) (q : ℕ)
      → o + total_length fs < two_63
      → get_elem? fs k ≡ some f
      → o + total_length (take k fs) ≡ q
      → get_elem? (ranges_from name pl o fs) k ≡ some (range_at name pl q f)
  ranges_from_at o [] k f q h e w = cc
  ranges_from_at o (g ∷ fs) zero f q h e w =
      let here : o ≡ q = omega arith in
      rw (ranges_from_step o g fs h)
        (let same : g ≡ f = some-injective g f e in rw (here, same) refl)
  ranges_from_at o (g ∷ fs) (suc k) f q h e w =
      rw (ranges_from_step o g fs h)
        (ranges_from_at (o + g.length) fs k f q (omega arith) e (omega arith))

-- In a torrent with a valid layout, a file's range starts at the piece of its first byte, and
-- every byte of the file, counted from the start of the torrent, lies in a piece of the range.
pub file_ranges_cover :
    (info : Info) (k : ℕ) (f : FileInfo) (x : ℕ)
    → IsLayout info
    → get_elem? info.files k ≡ some f
    → total_length (take k info.files) ≤ x
    → x < total_length (take k info.files) + f.length
    → (rs : List FileRange) × (r : FileRange) × (file_ranges info ≡ some rs)
      × (get_elem? rs k ≡ some r)
      × (r.path ≡ full_path info.name f)
      × (r.start_piece ≡ total_length (take k info.files) / info.piece_length)
      × (r.start_piece ≤ x / info.piece_length)
      × (x / info.piece_length ≤ r.end_piece)
file_ranges_cover info k f x h e lo hi =
    let o = total_length (take k info.files) in
    let at =
      ranges_from_at info.name info.piece_length h.positive h.small 0 info.files k f o
        (omega (arith, h.fits)) e (omega arith) in
    let mono = quot_mono info.name info.piece_length h.positive h.small in
    (
      ranges_from info.name info.piece_length 0 info.files,
      range_at info.name info.piece_length o f,
      file_ranges_total info h,
      at,
      refl,
      refl,
      mono o x lo,
      mono x (o + f.length) (omega arith),
    )

-- The paths of the files whose first piece, and the piece that the byte behind the file lies in, pass
-- a test. `o` is the offset of the first file.
unfoldable pub paths_where : (ℕ → ℕ → Bool) → Text → ℕ → ℕ → List FileInfo → List Text
paths_where test name pl o [] = []
paths_where test name pl o (f ∷ fs) =
    let rest = paths_where test name pl (o + f.length) fs in
    if test (o / pl) ((o + f.length) / pl) then full_path name f ∷ rest else rest

pub select-paths_where :
    (test : ℕ → ℕ → Bool) (passes : FileRange → Bool) (name : Text) (pl o : ℕ) (fs : List FileInfo)
    → 0 < pl
    → pl < two_63
    → o + total_length fs < two_63
    → ((r : FileRange) → IsOrdered r → passes r ≡ test r.start_piece r.end_piece)
    → map (λ r. r.path) (select passes (ranges_from name pl o fs)) ≡ paths_where test name pl o fs
unfolding paths_where
select-paths_where test passes name pl o [] pos small h same = unfold ranges_from in refl
select-paths_where test passes name pl o (f ∷ fs) pos small h same =
    let first = ranges_from_step name pl pos small o f fs h in
    let ordered : IsOrdered (range_at name pl o f) = record {
      ordered = quot_mono name pl pos small o (o + f.length) (omega arith);
      bounded = omega (arith, div-le_self (o + f.length) pl);
    } in
    let here = same (range_at name pl o f) ordered in
    let rest =
      select-paths_where test passes name pl (o + f.length) fs pos small (omega arith) same in
    elim (Bool-cases (test (o / pl) ((o + f.length) / pl))) [
      | inl y ↦ rw (first, here, y, rest) refl
      | inr n ↦ rw (first, here, n, rest) refl
    ]
