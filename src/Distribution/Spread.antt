-- ===== src/Distribution/Spread.antt =====
-- Where DistributeByHash puts a torrent.
use native.Mathlib.Nat.{
  le-div_iff_mul-le, lt-div-mul-add, div-lt_iff_lt-mul, mul_comm, div-mul-le_self,
}
use torrent_web_seeder.Prelude.{
  ℕ, zero, suc, ◌+◌, ◌-◌, ◌*◌, ◌/◌, ◌≤◌, ◌<◌, ◌≡◌, ◌↔◌, refl, ◌∙◌, ap, false, inl, inr, Bool-cases,
  none, some, List, [], ◌∷◌, ltb, ◌==◌, length, get_elem?, get_or, get_elem?_of_lt, arith, Text,
}
use torrent_web_seeder.Distribution.{total, pick_from, directory_or_empty, distribute_by_hash}

module _ (num interval : ℕ) (pos : 0 < interval) where
  -- Being below the end of an interval is a matter of the quotient.
  below_end : (i : ℕ) → ltb num ((i + 1) * interval) ≡ ltb (num / interval) (i + 1)
  below_end i =
      let reaches : (i + 1 ≤ num / interval) ↔ ((i + 1) * interval ≤ num) = le-div_iff_mul-le pos in
      ground (arith, reaches)

  pick_from-get_elem? :
      (i : ℕ) (ds : List Text)
      → i ≤ num / interval
      → pick_from num interval i ds ≡ get_elem? ds (num / interval - i)
  unfolding pick_from
  pick_from-get_elem? i [] h = refl
  pick_from-get_elem? i (d ∷ ds) h = elim (Bool-cases (ltb (num / interval) (i + 1))) [
    | inl stop ↦
        let here : num / interval - i ≡ 0 = ground arith in
        rw (pick_from, below_end i, stop) (rw here refl)
    | inr more ↦
        let later : num / interval - i ≡ suc (num / interval - (i + 1)) = ground arith in
        rw (pick_from, below_end i, more) (rw later (pick_from-get_elem? (i + 1) ds (ground arith)))
  ]

-- With `n` directories, 1000 at most, the intervals reach past every number but the last thousand.
intervals_reach :
    (n num : ℕ) → 0 < n → n ≤ 1000 → num + 1000 ≤ total → (0 < total / n) × (num / (total / n) < n)
intervals_reach n num pos few small =
    let positive : 0 < total / n = (le-div_iff_mul-le pos).1 (omega arith) in
    let past : total < total / n * n + n = lt-div-mul-add pos in
    let turned : total / n * n ≡ n * (total / n) = mul_comm (total / n) n in
    (positive, (div-lt_iff_lt-mul positive).1 (omega arith))

distribute_by_hash_picked :
    (sort : List Text → List Text) (prefix : Text → ℕ) (dirs : List Text) (hash d : Text)
    → 0 < length (sort dirs)
    → pick_from (prefix hash * 1000) (total / length (sort dirs)) 0 (sort dirs) ≡ some d
    → distribute_by_hash sort prefix dirs hash ≡ some d
unfolding distribute_by_hash directory_or_empty
distribute_by_hash_picked sort prefix dirs hash d pos e =
    let some_dirs : (length (sort dirs) == 0) ≡ false = ground arith in rw (some_dirs, e) refl

-- With 1000 directories at most, and at least one, a torrent whose hash prefix is not the last one,
-- fffff, is put in the directory whose interval it falls into, counted in the sorted order.
pub distribute_by_hash_found :
    (sort : List Text → List Text) (prefix : Text → ℕ) (dirs : List Text) (hash : Text)
    → 0 < length (sort dirs)
    → length (sort dirs) ≤ 1000
    → prefix hash < 1_048_575
    → (d : Text) × (distribute_by_hash sort prefix dirs hash ≡ some d)
      × (get_elem? (sort dirs) (prefix hash * 1000 / (total / length (sort dirs))) ≡ some d)
distribute_by_hash_found sort prefix dirs hash pos few small =
    let num = prefix hash * 1000 in
    let (positive, within) = intervals_reach (length (sort dirs)) num pos few (omega arith) in
    let at = get_elem?_of_lt (sort dirs) (num / (total / length (sort dirs))) [] within in
    let d = get_or (sort dirs) (num / (total / length (sort dirs))) [] in
    (
      d,
      distribute_by_hash_picked sort prefix dirs hash d pos (
          pick_from-get_elem? num (total / length (sort dirs)) positive 0 (sort dirs) (omega arith)
          ∙ ap (get_elem? (sort dirs)) (omega arith)
          ∙ at),
      at,
    )

distribute_by_hash_unpicked :
    (sort : List Text → List Text) (prefix : Text → ℕ) (dirs : List Text) (hash : Text)
    → 0 < length (sort dirs)
    → pick_from (prefix hash * 1000) (total / length (sort dirs)) 0 (sort dirs) ≡ none
    → distribute_by_hash sort prefix dirs hash ≡ some []
unfolding distribute_by_hash directory_or_empty
distribute_by_hash_unpicked sort prefix dirs hash pos e =
    let some_dirs : (length (sort dirs) == 0) ≡ false = ground arith in rw (some_dirs, e) refl

get_elem?_past : (ds : List Text) (i : ℕ) → length ds ≤ i → get_elem? ds i ≡ none
get_elem?_past [] i h = refl
get_elem?_past (d ∷ ds) zero h = absurd (omega arith)
get_elem?_past (d ∷ ds) (suc i) h = get_elem?_past ds i (omega arith)

-- A torrent whose hash prefix is the last one, fffff, is put in no directory, whichever there are,
-- one at least and 1048575000 at most: the empty string is returned, without an error.
pub distribute_by_hash_missed :
    (sort : List Text → List Text) (prefix : Text → ℕ) (dirs : List Text) (hash : Text)
    → 0 < length (sort dirs)
    → length (sort dirs) ≤ total
    → prefix hash ≡ 1_048_575
    → distribute_by_hash sort prefix dirs hash ≡ some []
distribute_by_hash_missed sort prefix dirs hash pos few last =
    let n = length (sort dirs) in
    let positive : 0 < total / n = (le-div_iff_mul-le pos).1 (omega arith) in
    let turned : total / n * n ≡ n * (total / n) = mul_comm (total / n) n in
    let below : total / n * n ≤ total = div-mul-le_self total n in
    let past : n ≤ prefix hash * 1000 / (total / n) =
      (le-div_iff_mul-le positive).1 (omega arith) in
    distribute_by_hash_unpicked sort prefix dirs hash pos (
      pick_from-get_elem? (prefix hash * 1000) (total / n) positive 0 (sort dirs) (omega arith)
      ∙ get_elem?_past (sort dirs) _ (omega arith))
