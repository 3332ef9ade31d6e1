-- ===== src/PieceLru.antt =====
-- server/services/piece_lru.go: the tracker of one torrent's cached pieces.
--
-- A method holds the mutex from its first line to its last, so it is one step on the state. A
-- `*pieceEntry` is shared by the map and the list; here both hold the entry, and every write
-- through the pointer is made in both. A list element is found by the index of its entry.
pub mod Entries
pub mod Invariant
pub mod Runs
pub mod Order
pub mod Permuted
pub mod Budget
pub mod Adding
pub mod Within
pub mod Recovery
use torrent_web_seeder.Prelude.{
  ℕ, Bool, true, false, ◌||◌, Option, none, some, List, [], ◌∷◌, ◌++◌, reverse, ltb, ◌==◌,
  if◌then◌else◌, lookup, insert, delete, nat_eq, Int64, add64, sub64, lt64, le64,
}

-- `last_access` is in nanoseconds since the epoch.
pub record PieceEntry : Type 0 where
  pub index : ℕ
  pub size : Int64
  pub last_access : Int64

-- `lru_list` runs from the front (most recently used) to the back.
pub record PieceLru : Type 0 where
  pub entries : List (ℕ × PieceEntry)
  pub lru_list : List PieceEntry
  pub used : Int64
  pub budget : Int64
  pub is_protected : Option (ℕ → Bool)

-- evictionProtectionWindow + time.Minute
abbrev pub recovered_age : Int64
recovered_age = 90_000_000_000

unfoldable pub new_piece_lru : Int64 → PieceLru
new_piece_lru budget = record {
  entries = [];
  lru_list = [];
  used = 0;
  budget = budget;
  is_protected = none;
}

unfoldable pub set_protected_func : PieceLru → (ℕ → Bool) → PieceLru
set_protected_func l fn = record l { is_protected = some fn }

-- list.Remove of the element whose entry has the index
unfoldable pub remove_element : ℕ → List PieceEntry → List PieceEntry
remove_element i [] = []
remove_element i (e ∷ es) = if e.index == i then es else e ∷ remove_element i es

-- A write of `lastAccess` through the pointer, and list.MoveToFront.
unfoldable pub refresh : Int64 → PieceEntry → PieceLru → PieceLru
unfolding remove_element
refresh now e l =
    let e' = record e { last_access = now } in
    record l {
      entries = insert e.index e' l.entries;
      lru_list = e' ∷ remove_element e.index l.lru_list;
    }

unfoldable pub touch : Int64 → ℕ → PieceLru → PieceLru
unfolding refresh
touch now i l = elim (lookup i l.entries) [ none ↦ l | some e ↦ refresh now e l ]

-- `l.isProtected != nil && l.isProtected(index)`
unfoldable pub protects : Option (ℕ → Bool) → ℕ → Bool
protects none i = false
protects (some f) i = f i

-- What the first loop of `computeEvictions` leaves: `toEvict`, `protectedCandidates`, `simUsed`.
pub record Pass : Type 0 where
  pub to_evict : List ℕ
  pub candidates : List PieceEntry
  pub sim_used : Int64

unfoldable pub first_pass : (ℕ → Bool) → Int64 → Int64 → List PieceEntry → Pass
first_pass p budget sim_used [] = record { to_evict = []; candidates = []; sim_used = sim_used }
first_pass p budget sim_used (e ∷ es) =
    let skip =
      (let r = first_pass p budget sim_used es in record r { candidates = e ∷ r.candidates }) in
    let evict =
      (let r = first_pass p budget (sub64 sim_used e.size) es in
        record r { to_evict = e.index ∷ r.to_evict }) in
    if lt64 budget sim_used
    then (if p e.index then skip else evict)
    else (record { to_evict = []; candidates = []; sim_used = sim_used })

unfoldable pub second_pass : Int64 → Int64 → List PieceEntry → List ℕ
second_pass budget sim_used [] = []
second_pass budget sim_used (e ∷ es) =
    let rest = second_pass budget (sub64 sim_used e.size) es in
    if le64 sim_used budget then [] else e.index ∷ rest

unfoldable pub compute_evictions : PieceLru → List ℕ
unfolding protects first_pass second_pass
compute_evictions l =
    if le64 l.budget 0 || le64 l.used l.budget
    then []
    else (let r = first_pass (protects l.is_protected) l.budget l.used (reverse l.lru_list) in
        r.to_evict ++ second_pass l.budget r.sim_used r.candidates)

-- A new entry at the front, before the evictions are computed.
unfoldable pub track : Int64 → ℕ → Int64 → PieceLru → PieceLru
track now i size l =
    let e : PieceEntry = record { index = i; size = size; last_access = now } in
    record l { entries = insert i e l.entries; lru_list = e ∷ l.lru_list; used = add64 l.used size }

unfoldable pub add : Int64 → ℕ → Int64 → PieceLru → PieceLru × List ℕ
unfolding refresh track compute_evictions
add now i size l = elim (lookup i l.entries) [
  | some e ↦ (refresh now e l, [])
  | none ↦ (let l' = track now i size l in (l', compute_evictions l'))
]

unfoldable pub remove : ℕ → PieceLru → PieceLru
unfolding remove_element
remove i l = elim (lookup i l.entries) [
  | none ↦ l
  | some e ↦ record l {
    entries = delete i l.entries;
    lru_list = remove_element i l.lru_list;
    used = sub64 l.used e.size;
  }
]

unfoldable pub remaining_budget : PieceLru → Int64
remaining_budget l =
    let rem = sub64 l.budget l.used in if le64 l.budget 0 then 0 else if lt64 rem 0 then 0 else rem

-- One round of the loop of `Recover`: a piece that is not tracked goes to the back.
unfoldable pub recover_piece : Int64 → ℕ → Int64 → PieceLru → PieceLru
recover_piece old_time i size l =
    let e : PieceEntry = record { index = i; size = size; last_access = old_time } in
    elim (lookup i l.entries) [
      | some _ ↦ l
      | none ↦ record l {
        entries = insert i e l.entries;
        lru_list = l.lru_list ++ e ∷ [];
        used = add64 l.used size;
      }
    ]

-- The loop of `Recover`, over the pieces in the order in which Go walks the map.
unfoldable pub recover_from : Int64 → List (ℕ × Int64) → PieceLru → PieceLru
unfolding recover_piece
recover_from old_time [] l = l
recover_from old_time ((i, size) ∷ ps) l =
    recover_from old_time ps (recover_piece old_time i size l)

unfoldable pub recover : Int64 → List (ℕ × Int64) → PieceLru → PieceLru
unfolding recover_from
recover now ps l = recover_from (sub64 now recovered_age) ps l
