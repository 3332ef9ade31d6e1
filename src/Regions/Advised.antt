-- ===== src/Regions/Advised.antt =====
-- madviseSpanRange drops exactly the pages of the byte range, in every file that is mapped whole.
use mathlib.Core.Option.{some-injective}
use torrent_web_seeder.Prelude.{
  ℕ, zero, suc, ◌+◌, ◌-◌, ◌≤◌, ◌<◌, ◌≡◌, refl, sym, ◌∙◌, ap, subst, Bool, true, false, ◌&&◌, ◌||◌,
  Option, some, List, [], ◌∷◌, ◌==◌, ltb, leb, if◌then◌else◌, take, get_elem?, arith, two_63, add64,
  add64_exact, sub64_exact, lt64_exact, le64_exact, min64_exact, max64_exact,
}
use torrent_web_seeder.Regions.{Advice, is_mapped, advise_from, madvise_span_range}
use torrent_web_seeder.Regions.Bytes.{sum}

-- Whether some advice names byte `y` of file `k`.
unfoldable pub advised : ℕ → ℕ → List Advice → Bool
advised k y [] = false
advised k y (a ∷ more) = (a.file_index == k && leb a.start y && ltb y a.stop) || advised k y more

abbrev advice_at : ℕ → ℕ → ℕ → ℕ → ℕ → Advice
advice_at so e i fo len = record {
  file_index = i;
  start = (if ltb so fo then fo else so) - fo;
  stop = (if ltb (fo + len) e then fo + len else e) - fo;
}

mapped_whole :
    (mmaps : List (Option ℕ)) (i stop len : ℕ)
    → get_elem? mmaps i ≡ some (some len)
    → stop ≤ len
    → len < two_63
    → is_mapped mmaps i stop ≡ true
unfolding is_mapped
mapped_whole mmaps i stop len m fit small =
    rw (m, is_mapped) (le64_exact stop len (omega arith) small ∙ ground arith)

module _ (mmaps : List (Option ℕ)) (so e : ℕ) (h : e < two_63) (g : so ≤ e) where
  advise_from_step :
      (i fo len : ℕ) (lens : List ℕ)
      → fo + sum (len ∷ lens) < two_63
      → let more = advise_from mmaps so e (i + 1) (fo + len) lens in
        let rest = (if leb e fo then [] else more) in
        let a = advice_at so e i fo len in
        advise_from mmaps so e i fo (len ∷ lens)
        ≡ (if (ltb fo e && ltb so (fo + len)) && is_mapped mmaps i a.stop then a ∷ rest else rest)
  unfolding advise_from
  advise_from_step i fo len lens fits =
      let file_end : add64 fo len ≡ fo + len = add64_exact fo len (omega arith) in
      rw
        (
          file_end,
          lt64_exact fo e (omega arith) h,
          le64_exact e fo h (omega arith),
          lt64_exact so (fo + len) (omega arith) (omega arith),
          max64_exact so fo (omega arith) (omega arith),
          min64_exact e (fo + len) h (omega arith),
        )
        (ground (
          arith,
          sub64_exact so fo,
          sub64_exact fo fo,
          sub64_exact e fo,
          sub64_exact (fo + len) fo,
        ))

  advised_earlier :
      (i fo : ℕ) (lens : List ℕ) (j y : ℕ)
      → fo + sum lens < two_63
      → j < i
      → advised j y (advise_from mmaps so e i fo lens) ≡ false
  unfolding advised
  advised_earlier i fo [] j y fits lt = unfold advise_from in refl
  advised_earlier i fo (len ∷ lens) j y fits lt =
      rw (advise_from_step i fo len lens fits)
        (ground (arith, advised_earlier (i + 1) (fo + len) lens j y))

  -- Behind the range nothing is advised; so stopping there loses nothing.
  advised_exact :
      (i fo : ℕ) (lens : List ℕ) (k y len j q : ℕ)
      → fo + sum lens < two_63
      → get_elem? lens k ≡ some len
      → get_elem? mmaps j ≡ some (some len)
      → y < len
      → i + k ≡ j
      → fo + sum (take k lens) ≡ q
      → advised j y (advise_from mmaps so e i fo lens) ≡ (leb so (q + y) && ltb (q + y) e)
  unfolding advised
  advised_exact i fo [] k y len j q fits f m lt at start = cc
  advised_exact i fo (n ∷ lens) zero y len j q fits f m lt at start =
      let here : get_elem? mmaps i ≡ some (some n) =
        subst (λ x. get_elem? mmaps x ≡ some (some n)) (omega arith)
          (m ∙ ap (λ x. some (some x)) (sym (some-injective n len f))) in
      let same : n ≡ len = some-injective n len f in
      let stop = (if ltb (fo + n) e then fo + n else e) - fo in
      rw (advise_from_step i fo n lens fits) (
        ground (arith, mapped_whole mmaps i stop n here, advised_earlier (i + 1) (fo + n) lens j y))
  advised_exact i fo (n ∷ lens) (suc k) y len j q fits f m lt at start =
      rw (advise_from_step i fo n lens fits) (
        ground (
          arith,
          advised_exact (i + 1) (fo + n) lens k y len j q (omega arith) f m lt (omega arith)
              (omega arith),
        ))

-- In a file that is mapped whole, madviseSpanRange names byte `y` for eviction exactly when the
-- byte lies in the given range of the torrent; stopping behind the range loses no file. The
-- files' lengths add up to less than 2^63, and the range ends below it.
pub madvise_span_range-bytes :
    (mmaps : List (Option ℕ)) (lens : List ℕ) (span_off n k y len : ℕ)
    → sum lens < two_63
    → span_off + n < two_63
    → get_elem? lens k ≡ some len
    → get_elem? mmaps k ≡ some (some len)
    → y < len
    → let x = sum (take k lens) + y in
      advised k y (madvise_span_range mmaps lens span_off n)
      ≡ (leb span_off x && ltb x (span_off + n))
unfolding madvise_span_range
madvise_span_range-bytes mmaps lens so n k y len fits small e m lt =
    let exact : add64 so n ≡ so + n = add64_exact so n (omega arith) in
    rw exact (
      advised_exact mmaps so (so + n) small (omega arith) 0 0 lens k y len k _ (omega arith) e m lt
        (omega arith) (omega arith))
