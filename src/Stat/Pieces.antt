-- ===== src/Stat/Pieces.antt =====
-- `diff` of stat.go, and what a client that keeps the pieces by position makes of it.
use torrent_web_seeder.Prelude.{
  ℕ, suc, ◌+◌, ◌≡◌, refl, sym, ◌∙◌, ap, subst, Bool, true, false, ◌&&◌, inl, inr, Bool-cases, none,
  some, List, [], ◌∷◌, ◌++◌, if◌then◌else◌, length, get_elem?, set, arith,
}
use mathlib.Core.Logic.{ite}
use torrent_web_seeder.Stat.{
  Piece, PieceState, Priority, Priority-discrete, Torrent, reply_pieces, make_reply, torrent_stat,
}

unfoldable pub same_bool : Bool → Bool → Bool
same_bool x y = if x then y else if y then false else true

unfoldable pub same_priority : Priority → Priority → Bool
same_priority x y = ite (Priority-discrete x y) true false

-- aa.GetComplete() == bb.GetComplete() && aa.GetPriority() == bb.GetPriority()
unfoldable pub same_state : Piece → Piece → Bool
unfolding same_bool same_priority
same_state a b = same_bool a.complete b.complete && same_priority a.priority b.priority

-- The loop of `diff` from index `i`.
unfoldable pub diff_from : ℕ → List Piece → List Piece → List Piece
unfolding same_state
diff_from i [] b = []
diff_from i (aa ∷ a) b =
    let rest = diff_from (i + 1) a b in
    elim (get_elem? b i) [
      | none ↦ aa ∷ rest
      | some bb ↦ if same_state aa bb then rest else aa ∷ rest
    ]

unfoldable pub diff : List Piece → List Piece → List Piece
unfolding diff_from
diff a b = diff_from 0 a b

-- A client writes every piece that it receives at the piece's position.
unfoldable pub patch : List Piece → List Piece → List Piece
patch view [] = view
patch view (p ∷ ps) = patch (set view p.position p) ps

-- The pieces of a reply are numbered from 0 on.
abbrev pub NumberedFrom : ℕ → List Piece → Type 0
NumberedFrom i [] = Unit {0}
NumberedFrom i (p ∷ ps) = (p.position ≡ i) × NumberedFrom (i + 1) ps

get_elem?_middle :
    (xs : List Piece) (y : Piece) (ys : List Piece)
    → get_elem? (xs ++ (y ∷ ys)) (length xs) ≡ some y
get_elem?_middle [] y ys = refl
get_elem?_middle (x ∷ xs) y ys = get_elem?_middle xs y ys

set_middle :
    (xs : List Piece) (y : Piece) (ys : List Piece) (z : Piece)
    → set (xs ++ (y ∷ ys)) (length xs) z ≡ xs ++ (z ∷ ys)
set_middle [] y ys z = refl
set_middle (x ∷ xs) y ys z = ap (◌∷◌ x) (set_middle xs y ys z)

and_true : (x y : Bool) → (x && y) ≡ true → (x ≡ true) × (y ≡ true)
and_true x y h = ground arith

same_bool-eq : (x y : Bool) → same_bool x y ≡ true → x ≡ y
unfolding same_bool
same_bool-eq x y h = ground arith

same_priority-eq : (x y : Priority) → same_priority x y ≡ true → x ≡ y
unfolding same_priority
same_priority-eq x y h = ground arith

same_state-eq : (a b : Piece) → same_state a b ≡ true → a.position ≡ b.position → a ≡ b
unfolding same_state
same_state-eq a b h p =
    let (c, r) =
      and_true (same_bool a.complete b.complete) (same_priority a.priority b.priority) h in
    λ k. record {
      position = p k;
      complete = same_bool-eq a.complete b.complete c k;
      priority = same_priority-eq a.priority b.priority r k;
    }

append_assoc_one :
    (xs : List Piece) (y : Piece) (ys : List Piece) → (xs ++ (y ∷ [])) ++ ys ≡ xs ++ (y ∷ ys)
append_assoc_one [] y ys = refl
append_assoc_one (x ∷ xs) y ys = ap (◌∷◌ x) (append_assoc_one xs y ys)

length_snoc : (xs : List Piece) (y : Piece) → length (xs ++ (y ∷ [])) ≡ length xs + 1
length_snoc [] y = refl
length_snoc (x ∷ xs) y = ground (arith, length_snoc xs y)

diff_from_same :
    (i : ℕ) (a b : Piece) (new full : List Piece)
    → get_elem? full i ≡ some b
    → same_state a b ≡ true
    → diff_from i (a ∷ new) full ≡ diff_from (i + 1) new full
unfolding diff_from
diff_from_same i a b new full e h = rw (diff_from, e) (rw h refl)

diff_from_other :
    (i : ℕ) (a b : Piece) (new full : List Piece)
    → get_elem? full i ≡ some b
    → same_state a b ≡ false
    → diff_from i (a ∷ new) full ≡ a ∷ diff_from (i + 1) new full
unfolding diff_from
diff_from_other i a b new full e h = rw (diff_from, e) (rw h refl)

patch_cons :
    (view : List Piece) (p : Piece) (ps : List Piece)
    → patch view (p ∷ ps) ≡ patch (set view p.position p) ps
patch_cons view p ps = unfold patch in refl

-- `done` is what the client has of the pieces before index `i`, `old` what the last reply had.
patch-diff_from :
    (i : ℕ) (done old new last : List Piece)
    → length done ≡ i
    → length old ≡ i
    → length new ≡ length last
    → NumberedFrom i new
    → NumberedFrom i last
    → patch (done ++ last) (diff_from i new (old ++ last)) ≡ done ++ new
patch-diff_from i done old [] [] d o l n m = unfold patch diff_from in refl
patch-diff_from i done old [] (b ∷ last) d o l n m = absurd (omega arith)
patch-diff_from i done old (a ∷ new) [] d o l n m = absurd (omega arith)
patch-diff_from i done old (a ∷ new) (b ∷ last) d o l (p, n) (q, m) =
    let at : get_elem? (old ++ (b ∷ last)) i ≡ some b =
      subst (λ k. get_elem? (old ++ (b ∷ last)) k ≡ some b) o (get_elem?_middle old b last) in
    let next : patch (done ++ (a ∷ last)) (diff_from (i + 1) new (old ++ (b ∷ last)))
        ≡ done ++ (a ∷ new) =
      rw
        (
          sym (append_assoc_one done a last),
          sym (append_assoc_one old b last),
          sym (append_assoc_one done a new),
        )
        (patch-diff_from (i + 1) (done ++ (a ∷ [])) (old ++ (b ∷ [])) new last
          (length_snoc done a ∙ ap (λ k. k + 1) d) (length_snoc old b ∙ ap (λ k. k + 1) o)
          (omega arith) n m) in
    let put : set (done ++ (b ∷ last)) a.position a ≡ done ++ (a ∷ last) =
      subst (λ k. set (done ++ (b ∷ last)) k a ≡ done ++ (a ∷ last)) (d ∙ sym p)
        (set_middle done b last a) in
    elim (Bool-cases (same_state a b)) [
      | inl e ↦ rw (diff_from_same i a b new (old ++ (b ∷ last)) at e) (
          subst
            (λ x.
              patch (done ++ (x ∷ last)) (diff_from (i + 1) new (old ++ (b ∷ last)))
              ≡ done ++ (a ∷ new))
            (same_state-eq a b e (p ∙ sym q)) next)
      | inr e ↦ rw (diff_from_other i a b new (old ++ (b ∷ last)) at e, patch_cons, put) next
    ]

-- A client that holds the pieces of the last reply and writes the pieces of the difference at their
-- positions holds the pieces of the new reply, when both replies have as many pieces, numbered
-- from 0 on.
pub patch-diff :
    (new last : List Piece)
    → length new ≡ length last
    → NumberedFrom 0 new
    → NumberedFrom 0 last
    → patch last (diff new last) ≡ new
unfolding diff
patch-diff new last l n m = patch-diff_from 0 [] [] new last refl refl l n m

reply_pieces-NumberedFrom :
    (normal_priority i : ℕ) (states : List PieceState)
    → NumberedFrom i (reply_pieces normal_priority i states)
unfolding reply_pieces
reply_pieces-NumberedFrom normal_priority i [] = tt
reply_pieces-NumberedFrom normal_priority i (p ∷ ps) =
    (refl, reply_pieces-NumberedFrom normal_priority (i + 1) ps)

length-reply_pieces :
    (normal_priority i : ℕ) (states : List PieceState)
    → length (reply_pieces normal_priority i states) ≡ length states
unfolding reply_pieces
length-reply_pieces normal_priority i [] = refl
length-reply_pieces normal_priority i (p ∷ ps) =
    ap suc (length-reply_pieces normal_priority (i + 1) ps)

-- The pieces of a torrent's next reply are those of its last one, patched with their difference,
-- whatever changed in between, as long as the torrent has as many pieces.
pub torrent_stat-patch :
    (normal_priority : ℕ) (t t' : Torrent)
    → length t.piece_states ≡ length t'.piece_states
    → patch
        (torrent_stat normal_priority t).pieces
        (diff (torrent_stat normal_priority t').pieces (torrent_stat normal_priority t).pieces)
      ≡ (torrent_stat normal_priority t').pieces
unfolding torrent_stat make_reply
torrent_stat-patch normal_priority t t' h =
    patch-diff (reply_pieces normal_priority 0 t'.piece_states)
      (reply_pieces normal_priority 0 t.piece_states)
      (length-reply_pieces normal_priority 0 t'.piece_states
        ∙ sym h
        ∙ sym (length-reply_pieces normal_priority 0 t.piece_states))
      (reply_pieces-NumberedFrom normal_priority 0 t'.piece_states)
      (reply_pieces-NumberedFrom normal_priority 0 t.piece_states)
