-- ===== src/Completions/Scan.antt =====
-- The loop over the pieces of a file decides that each of them is complete.
use torrent_web_seeder.Prelude.{
  not, ◌&&◌, ◌||◌, leb, sym, ◌∙◌, ℕ, zero, suc, ◌+◌, ◌-◌, ◌≤◌, ◌<◌, ◌≡◌, refl, Bool, true, false,
  inl, inr, Bool-cases, some, List, [], ◌∷◌, ◌==◌, if◌then◌else◌, length, get_elem?, get_or, set,
  arith, lt64_exact, le64_exact,
}
use torrent_web_seeder.Files.{FileRange}
use torrent_web_seeder.Files.Pieces.{IsOrdered}
use torrent_web_seeder.Completions.{scan_pieces, range_complete, all_complete}

-- Every piece from `a` to `b` that the torrent has is complete.
abbrev pub AllDone : List Bool → ℕ → ℕ → Type 0
AllDone pieces a b = (j : ℕ) → a ≤ j → j ≤ b → j < length pieces → get_or pieces j false ≡ true

-- What the loop tests, for a range with no negative end.
unfoldable pub range_done : List Bool → FileRange → Bool
range_done pieces r = scan_pieces (r.end_piece - r.start_piece + 1) r.start_piece pieces

pub range_complete-done :
    (r : FileRange) (pieces : List Bool)
    → IsOrdered r
    → range_complete r pieces ≡ some (range_done pieces r)
unfolding range_complete range_done
range_complete-done r pieces o =
    ground (arith, le64_exact r.start_piece r.end_piece, lt64_exact r.start_piece 0)

scan_pieces_sound :
    (n i : ℕ) (pieces : List Bool) (j : ℕ)
    → scan_pieces n i pieces ≡ true
    → i ≤ j
    → j < i + n
    → j < length pieces
    → get_or pieces j false ≡ true
unfolding scan_pieces
scan_pieces_sound zero i pieces j s h k l = absurd (omega arith)
scan_pieces_sound (suc n) i pieces j s h k l = elim (Bool-cases (i == j)) [
  | inl here ↦ ground arith
  | inr later ↦ ground (arith, scan_pieces_sound n (i + 1) pieces j)
]

scan_pieces_complete :
    (n i : ℕ) (pieces : List Bool)
    → ((j : ℕ) → i ≤ j → j < i + n → j < length pieces → get_or pieces j false ≡ true)
    → scan_pieces n i pieces ≡ true
unfolding scan_pieces
scan_pieces_complete zero i pieces h = refl
scan_pieces_complete (suc n) i pieces h =
    let rest =
      scan_pieces_complete n (i + 1) pieces (λ j a b c. h j (omega arith) (omega arith) c) in
    ground (arith, h i)

module _ (pieces : List Bool) (r : FileRange) (o : IsOrdered r) where
  pub range_done_sound : range_done pieces r ≡ true → AllDone pieces r.start_piece r.end_piece
  unfolding range_done
  range_done_sound h j a b l =
      scan_pieces_sound _ r.start_piece pieces j h a (omega (arith, o.ordered)) l

  pub range_done_complete : AllDone pieces r.start_piece r.end_piece → range_done pieces r ≡ true
  unfolding range_done
  range_done_complete h =
      scan_pieces_complete _ r.start_piece pieces (λ j a b l. h j a (omega (arith, o.ordered)) l)

-- The number of complete pieces.
unfoldable pub count_done : List Bool → ℕ
count_done [] = 0
count_done (b ∷ bs) = (if b then 1 else 0) + count_done bs

pub count_done-le : (bs : List Bool) → count_done bs ≤ length bs
unfolding count_done
count_done-le [] = omega arith
count_done-le (b ∷ bs) = ground (arith, count_done-le bs)

pub count_done-set_true :
    (bs : List Bool) (i : ℕ)
    → get_elem? bs i ≡ some false
    → count_done (set bs i true) ≡ count_done bs + 1
unfolding count_done
count_done-set_true [] i h = cc
count_done-set_true (b ∷ bs) zero h = ground arith
count_done-set_true (b ∷ bs) (suc i) h = omega (arith, count_done-set_true bs i h)

pub count_done-set_false :
    (bs : List Bool) (i : ℕ)
    → get_elem? bs i ≡ some true
    → count_done (set bs i false) + 1 ≡ count_done bs
unfolding count_done
count_done-set_false [] i h = cc
count_done-set_false (b ∷ bs) zero h = ground arith
count_done-set_false (b ∷ bs) (suc i) h = omega (arith, count_done-set_false bs i h)

pub all_complete-count : (bs : List Bool) → all_complete bs ≡ (count_done bs == length bs)
unfolding all_complete count_done
all_complete-count [] = refl
all_complete-count (b ∷ bs) = ground (arith, all_complete-count bs, count_done-le bs)

pub get_or_of_count :
    (bs : List Bool) (j : ℕ) → count_done bs ≡ length bs → j < length bs → get_or bs j false ≡ true
unfolding count_done
get_or_of_count [] j h l = elim l [ ]
get_or_of_count (b ∷ bs) zero h l = ground (arith, count_done-le bs)
get_or_of_count (b ∷ bs) (suc j) h l = ground (arith, count_done-le bs, get_or_of_count bs j)

-- Each piece of the list from `a` to `b` is complete; `i` is the index of the first of the list.
unfoldable pub done_between : ℕ → List Bool → ℕ → ℕ → Bool
done_between i [] a b = true
done_between i (p ∷ ps) a b = (not (leb a i && leb i b) || p) && done_between (i + 1) ps a b

done_between_sound :
    (i : ℕ) (ps : List Bool) (a b k : ℕ)
    → done_between i ps a b ≡ true
    → a ≤ i + k
    → i + k ≤ b
    → k < length ps
    → get_or ps k false ≡ true
unfolding done_between
done_between_sound i [] a b k d lo hi l = elim l [ ]
done_between_sound i (p ∷ ps) a b zero d lo hi l = ground arith
done_between_sound i (p ∷ ps) a b (suc k) d lo hi l =
    done_between_sound (i + 1) ps a b k (ground arith) (omega arith) (omega arith) (omega arith)

done_between_complete :
    (i : ℕ) (ps : List Bool) (a b : ℕ)
    → ((k : ℕ) → a ≤ i + k → i + k ≤ b → k < length ps → get_or ps k false ≡ true)
    → done_between i ps a b ≡ true
unfolding done_between
done_between_complete i [] a b h = refl
done_between_complete i (p ∷ ps) a b h =
    let rest =
      done_between_complete (i + 1) ps a b
        (λ k lo hi l. h (suc k) (omega arith) (omega arith) (omega arith)) in
    ground (arith, h 0)

-- The loop decides it.
pub range_done-done_between :
    (pieces : List Bool) (r : FileRange)
    → IsOrdered r
    → range_done pieces r ≡ done_between 0 pieces r.start_piece r.end_piece
range_done-done_between pieces r o = elim (Bool-cases (range_done pieces r)) [
  | inl y ↦
      let done = range_done_sound pieces r o y in
      y
      ∙ sym (
          done_between_complete 0 pieces r.start_piece r.end_piece
            (λ k lo hi l. done k (omega arith) (omega arith) l))
  | inr n ↦ elim (Bool-cases (done_between 0 pieces r.start_piece r.end_piece)) [
    | inr m ↦ n ∙ sym m
    | inl y ↦
        let all : range_done pieces r ≡ true = range_done_complete pieces r o (λ j lo hi l.
          done_between_sound 0 pieces r.start_piece r.end_piece j y (omega arith) (omega arith)
            l) in
        cc
  ]
]
