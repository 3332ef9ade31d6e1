-- ===== src/PieceLru/Order.antt =====
-- `computeEvictions` in one pass: the unprotected pieces from the back of the list, then the
-- protected ones from the back, as many as it takes.
use torrent_web_seeder.Prelude.{
  ℕ, ◌≡◌, refl, sym, ◌∙◌, ap, Bool, true, false, not, inl, inr, Bool-cases, List, [], ◌∷◌, ◌++◌,
  reverse, select, if◌then◌else◌, arith, Int64, sub64, lt64, le64,
}
use mathlib.Core.List.{append_assoc}
use torrent_web_seeder.PieceLru.{
  PieceEntry, PieceLru, protects, first_pass, second_pass, compute_evictions,
}

-- The order in which pieces go: unprotected ones first, each group least recently used first.
unfoldable pub eviction_order : PieceLru → List PieceEntry
eviction_order l =
    let p = protects l.is_protected in
    let back = reverse l.lru_list in
    select (λ e. not (p e.index)) back ++ select (λ e. p e.index) back

-- Take pieces until the bytes in use are within the budget.
unfoldable pub shed : Int64 → Int64 → List PieceEntry → List ℕ
shed budget used [] = []
shed budget used (e ∷ es) =
    let rest = shed budget (sub64 used e.size) es in if lt64 budget used then e.index ∷ rest else []

le64-not-lt64 : (a b : Int64) → le64 a b ≡ not (lt64 b a)
unfolding le64 lt64
le64-not-lt64 a b = ground arith

second_pass-shed : (b u : Int64) (es : List PieceEntry) → second_pass b u es ≡ shed b u es
unfolding second_pass shed
second_pass-shed b u [] = refl
second_pass-shed b u (e ∷ es) =
    ground (arith, le64-not-lt64 u b, second_pass-shed b (sub64 u e.size) es)

pub shed_stop : (b u : Int64) (es : List PieceEntry) → lt64 b u ≡ false → shed b u es ≡ []
unfolding shed
shed_stop b u [] h = refl
shed_stop b u (e ∷ es) h = rw h

pub shed_more :
    (b u : Int64) (e : PieceEntry) (es : List PieceEntry)
    → lt64 b u ≡ true
    → shed b u (e ∷ es) ≡ e.index ∷ shed b (sub64 u e.size) es
unfolding shed
shed_more b u e es h = rw h

module _ (p : ℕ → Bool) (b : Int64) where
  abbrev free : List PieceEntry → List PieceEntry
  free = select (λ e. not (p e.index))

  abbrev kept : List PieceEntry → List PieceEntry
  kept = select (λ e. p e.index)

  first_pass_stop :
      (u : Int64) (es : List PieceEntry)
      → lt64 b u ≡ false
      → first_pass p b u es ≡ record { to_evict = []; candidates = []; sim_used = u }
  unfolding first_pass
  first_pass_stop u [] h = refl
  first_pass_stop u (e ∷ es) h = rw h

  first_pass_skip :
      (u : Int64) (e : PieceEntry) (es : List PieceEntry)
      → lt64 b u ≡ true
      → p e.index ≡ true
      → let r = first_pass p b u es in
        first_pass p b u (e ∷ es) ≡ record r { candidates = e ∷ r.candidates }
  unfolding first_pass
  first_pass_skip u e es h k = rw (h, k)

  first_pass_evict :
      (u : Int64) (e : PieceEntry) (es : List PieceEntry)
      → lt64 b u ≡ true
      → p e.index ≡ false
      → let r = first_pass p b (sub64 u e.size) es in
        first_pass p b u (e ∷ es) ≡ record r { to_evict = e.index ∷ r.to_evict }
  unfolding first_pass
  first_pass_evict u e es h k = rw (h, k)

  -- `held` are the protected pieces that the first pass has already set aside.
  passes-shed :
      (u : Int64) (held es : List PieceEntry)
      → let r = first_pass p b u es in
        r.to_evict ++ shed b r.sim_used (held ++ r.candidates)
        ≡ shed b u (free es ++ (held ++ kept es))
  passes-shed u held [] = unfold first_pass in refl
  passes-shed u held (e ∷ es) = elim (Bool-cases (lt64 b u)) [
    | inr stop ↦
        rw (first_pass_stop u (e ∷ es) stop) (shed_stop b u _ stop ∙ sym (shed_stop b u _ stop))
    | inl more ↦ elim (Bool-cases (p e.index)) [
      | inl prot ↦
          rw (first_pass_skip u e es more prot, prot)
            (simp append_assoc at (passes-shed u (held ++ e ∷ []) es))
      | inr unp ↦
          rw (first_pass_evict u e es more unp, unp, shed_more b u e _ more)
            (ap (◌∷◌ e.index) (passes-shed (sub64 u e.size) held es))
    ]
  ]

-- The two passes of `computeEvictions` do what one pass over the eviction order does, whatever the
-- sizes and the budget, also where the 64-bit sums wrap.
pub compute_evictions-shed :
    (l : PieceLru)
    → compute_evictions l
      ≡ (if le64 l.budget 0 then [] else shed l.budget l.used (eviction_order l))
unfolding compute_evictions eviction_order
compute_evictions-shed l = elim (Bool-cases (le64 l.budget 0)) [
  | inl unlimited ↦ rw unlimited
  | inr limited ↦
      let p = protects l.is_protected in
      let back = reverse l.lru_list in
      elim (Bool-cases (lt64 l.budget l.used)) [
        | inr fits ↦
            rw (limited, le64-not-lt64 l.used l.budget, fits)
              (sym (shed_stop l.budget l.used _ fits))
        | inl over ↦
            rw (limited, le64-not-lt64 l.used l.budget, over, second_pass-shed)
              (passes-shed p l.budget l.used [] back)
      ]
]
