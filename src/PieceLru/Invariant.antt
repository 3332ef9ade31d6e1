-- ===== src/PieceLru/Invariant.antt =====
-- What holds of the tracker between two calls, and that every method keeps it.
use torrent_web_seeder.Prelude.{
  ℕ, ◌+◌, ◌%◌, ◌≡◌, refl, none, some, List, [], ◌∷◌, sym, ◌∙◌, inl, inr, Option-cases, lookup,
  lookup-insert, lookup-delete, arith, nat_eq, add64, sub64, two_64, Int64,
}
use torrent_web_seeder.PieceLru.{
  PieceEntry, PieceLru, new_piece_lru, refresh, touch, track, add, remove, recover_piece,
  recover_from, recover,
}
use torrent_web_seeder.PieceLru.Entries.{
  find, total_size, Distinct, find_self, find-remove_element, Distinct-remove_element,
  total_size-remove_element, find-append, total_size-append, Distinct-append_one,
}

-- The map and the list hold the same entries, no index twice, and `used` is their total size.
pub record IsValid (l : PieceLru) : Type 0 where
  pub distinct : Distinct l.lru_list
  pub agrees : (i : ℕ) → lookup i l.entries ≡ find i l.lru_list
  pub accounted : l.used ≡ total_size l.lru_list % two_64

add64_mod : (t s : ℕ) → add64 (t % two_64) s ≡ (s + t) % two_64
unfolding add64
add64_mod t s = omega arith

sub64_mod : (t s u : ℕ) → t + s ≡ u → sub64 (u % two_64) s ≡ t % two_64
unfolding sub64
sub64_mod t s u h = omega arith

pub new-IsValid : (b : Int64) → IsValid (new_piece_lru b)
unfolding new_piece_lru lookup find
new-IsValid b = record { distinct = tt; agrees = λ i. refl; accounted = refl }

pub refresh-IsValid :
    (now : Int64) (e : PieceEntry) (l : PieceLru)
    → IsValid l
    → find e.index l.lru_list ≡ some e
    → IsValid (refresh now e l)
unfolding refresh find
refresh-IsValid now e l v h = record {
  distinct = (
    rw (find-remove_element e.index e.index l.lru_list v.distinct) (ground arith),
    Distinct-remove_element e.index l.lru_list v.distinct,
  );
  agrees = λ i. ground (
    arith,
    v.agrees i,
    find-remove_element e.index i l.lru_list v.distinct,
    lookup-insert e.index i (record e { last_access = now }) l.entries,
  );
  accounted = rw v.accounted (omega (arith, total_size-remove_element e.index l.lru_list e h));
}

pub touch-IsValid : (now : Int64) (i : ℕ) (l : PieceLru) → IsValid l → IsValid (touch now i l)
unfolding touch
touch-IsValid now i l v = elim (Option-cases (lookup i l.entries)) [
  | inl e ↦ rw (e, touch) v
  | inr (x, e) ↦
      let found : find i l.lru_list ≡ some x = sym (v.agrees i) ∙ e in
      rw (e, touch) (refresh-IsValid now x l v (find_self i l.lru_list x found))
]

pub track-IsValid :
    (now : Int64) (i : ℕ) (size : Int64) (l : PieceLru)
    → IsValid l
    → find i l.lru_list ≡ none
    → IsValid (track now i size l)
unfolding track find
track-IsValid now i size l v h = record {
  distinct = (h, v.distinct);
  agrees = λ j. ground (
    arith,
    v.agrees j,
    lookup-insert i j (record { index = i; size = size; last_access = now }) l.entries,
  );
  accounted = rw (v.accounted, add64_mod) refl;
}

pub add-IsValid :
    (now : Int64) (i : ℕ) (size : Int64) (l : PieceLru) → IsValid l → IsValid (add now i size l).0
unfolding add
add-IsValid now i size l v = elim (Option-cases (lookup i l.entries)) [
  | inl e ↦ rw (e, add) (track-IsValid now i size l v (sym (v.agrees i) ∙ e))
  | inr (x, e) ↦
      let found : find i l.lru_list ≡ some x = sym (v.agrees i) ∙ e in
      rw (e, add) (refresh-IsValid now x l v (find_self i l.lru_list x found))
]

pub remove-IsValid : (i : ℕ) (l : PieceLru) → IsValid l → IsValid (remove i l)
unfolding remove
remove-IsValid i l v = elim (Option-cases (lookup i l.entries)) [
  | inl e ↦ rw (e, remove) v
  | inr (x, e) ↦
      let found : find i l.lru_list ≡ some x = sym (v.agrees i) ∙ e in
      rw (e, remove)
        (record {
          distinct = Distinct-remove_element i l.lru_list v.distinct;
          agrees = λ j. ground (
            arith,
            v.agrees j,
            find-remove_element i j l.lru_list v.distinct,
            lookup-delete i j l.entries,
          );
          accounted =
              rw (v.accounted)
                (sub64_mod _ x.size _ (total_size-remove_element i l.lru_list x found));
        })
]

pub recover_piece-IsValid :
    (t : Int64) (i : ℕ) (size : Int64) (l : PieceLru)
    → IsValid l
    → IsValid (recover_piece t i size l)
unfolding recover_piece
recover_piece-IsValid t i size l v =
    let new : PieceEntry = record { index = i; size = size; last_access = t } in
    elim (Option-cases (lookup i l.entries)) [
      | inr (x, e) ↦ rw (e, recover_piece) v
      | inl e ↦
          let fresh : find i l.lru_list ≡ none = sym (v.agrees i) ∙ e in
          rw (e, recover_piece)
            (record {
              distinct = Distinct-append_one l.lru_list new v.distinct fresh;
              agrees = λ j.
                  unfold find in
                  ground (
                    arith,
                    v.agrees j,
                    find-append j l.lru_list (new ∷ []),
                    lookup-insert i j new l.entries,
                  );
              accounted = rw (v.accounted, add64_mod, total_size-append) (omega arith);
            })
    ]

recover_from-IsValid :
    (t : Int64) (ps : List (ℕ × Int64)) (l : PieceLru) → IsValid l → IsValid (recover_from t ps l)
unfolding recover_from
recover_from-IsValid t [] l v = v
recover_from-IsValid t ((i, size) ∷ ps) l v =
    recover_from-IsValid t ps (recover_piece t i size l) (recover_piece-IsValid t i size l v)

pub recover-IsValid :
    (now : Int64) (ps : List (ℕ × Int64)) (l : PieceLru) → IsValid l → IsValid (recover now ps l)
unfolding recover
recover-IsValid now ps l v = recover_from-IsValid _ ps l v
