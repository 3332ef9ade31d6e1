-- ===== src/TorrentMap/Timers.antt =====
-- Association lists without a repeated key, and how insert and delete change their length.
use torrent_web_seeder.Prelude.{
  suc, ◌≡◌, refl, ap, subst, inl, inr, Bool-cases, none, some, List, [], ◌∷◌, length, arith, Eq,
  lookup, insert, delete, lookup-insert, lookup-delete,
}

module _ {K V : Type 0} ⦃e : Eq K⦄ where
  abbrev pub UniqueKeys : List (K × V) → Type 0
  UniqueKeys [] = Unit {0}
  UniqueKeys ((k, v) ∷ m) = (lookup k m ≡ none) × UniqueKeys m

  pub length-insert_new :
      (k : K) (v : V) (m : List (K × V))
      → lookup k m ≡ none
      → length (insert k v m) ≡ suc (length m)
  unfolding lookup insert
  length-insert_new k v [] h = refl
  length-insert_new k v ((j, w) ∷ m) h = ground (arith, length-insert_new k v m)

  pub length-insert_old :
      (k : K) (v w : V) (m : List (K × V)) → lookup k m ≡ some w → length (insert k v m) ≡ length m
  unfolding lookup insert
  length-insert_old k v w [] h = cc
  length-insert_old k v w ((j, x) ∷ m) h = ground (arith, length-insert_old k v w m)

  pub delete_absent : (k : K) (m : List (K × V)) → lookup k m ≡ none → delete k m ≡ m
  unfolding lookup delete
  delete_absent k [] h = refl
  delete_absent k ((j, x) ∷ m) h = ground (arith, delete_absent k m)

  pub length-delete :
      (k : K) (w : V) (m : List (K × V))
      → UniqueKeys m
      → lookup k m ≡ some w
      → suc (length (delete k m)) ≡ length m
  unfolding lookup delete
  length-delete k w [] u h = cc
  length-delete k w ((j, x) ∷ m) u h = elim (Bool-cases (e.beq j k)) [
    | inl y ↦
        let gone : lookup k m ≡ none = subst (λ i. lookup i m ≡ none) ((e.beq_iff j k).0 y) u.0 in
        rw y (ap suc (ap length (delete_absent k m gone)))
    | inr n ↦ ground (arith, length-delete k w m)
  ]

  pub UniqueKeys-insert :
      (k : K) (v : V) (m : List (K × V)) → UniqueKeys m → UniqueKeys (insert k v m)
  unfolding lookup insert
  UniqueKeys-insert k v [] u = (refl, tt)
  UniqueKeys-insert k v ((j, x) ∷ m) u =
      ground (arith, e.beq_iff k j, e.beq_iff j k, UniqueKeys-insert k v m, lookup-insert k j v m)

  pub UniqueKeys-delete : (k : K) (m : List (K × V)) → UniqueKeys m → UniqueKeys (delete k m)
  unfolding lookup delete
  UniqueKeys-delete k [] u = tt
  UniqueKeys-delete k ((j, x) ∷ m) u =
      ground (arith, e.beq_iff k j, e.beq_iff j k, UniqueKeys-delete k m, lookup-delete k j m)
