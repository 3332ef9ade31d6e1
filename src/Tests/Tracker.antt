-- ===== src/Tests/Tracker.antt =====
-- server/services/piece_lru.go on a tracker of three pieces.
use torrent_web_seeder.Prelude.{
  ℕ, ◌+◌, ltb, ◌≤◌, ◌<◌, ◌≡◌, refl, false, none, List, [], ◌∷◌, ◌==◌, if◌then◌else◌, arith, lookup,
  insert, delete, add64, sub64, lt64, le64, two_63, take,
}
use torrent_web_seeder.PieceLru.{
  PieceLru, protects, set_protected_func, touch, add, remove, recover, compute_evictions,
  new_piece_lru, remaining_budget,
}
use torrent_web_seeder.PieceLru.Entries.{find, total_size}
use torrent_web_seeder.PieceLru.Invariant.{IsValid}
use torrent_web_seeder.PieceLru.Runs.{
  Call, set_protected, touch_piece, add_piece, recover_pieces, call, run_calls, run_calls-IsValid,
}
use torrent_web_seeder.PieceLru.Order.{eviction_order, shed, compute_evictions-shed}
use torrent_web_seeder.PieceLru.Budget.{
  IsLeastCut, indices, remove_all, compute_evictions-IsLeastCut,
}
use torrent_web_seeder.PieceLru.Adding.{AllProtected, add_evicts_newest}

program : Unit {0}
unfolding protects set_protected_func touch add remove recover compute_evictions new_piece_lru
    remaining_budget find call run_calls eviction_order shed remove_all lookup insert delete add64
    sub64 lt64 le64
program = tt

-- Piece 0 is protected; piece 1 is read again after piece 2 has come.
abbrev calls : List Call
calls =
    set_protected (λ i. i == 0)
    ∷ add_piece 100 0 4
    ∷ add_piece 200 1 4
    ∷ add_piece 300 2 4
    ∷ touch_piece 400 1
    ∷ []

abbrev three : PieceLru
three = run_calls calls (new_piece_lru 12)

-- The same pieces with a budget of 5, as when a smaller budget is set and the program starts anew.
abbrev recovered : PieceLru
recovered =
    run_calls
      (recover_pieces 100_000_000_000 ((0, 4) ∷ (1, 4) ∷ (2, 4) ∷ [])
        ∷ set_protected (λ i. i == 0)
        ∷ [])
      (new_piece_lru 5)

evicted_first : compute_evictions recovered ≡ 2 ∷ 1 ∷ []
unfolding program
evicted_first = refl

added_evicts : (add 500 3 4 three).1 ≡ 2 ∷ []
unfolding program
added_evicts = refl

three-IsValid : IsValid three
three-IsValid = run_calls-IsValid 12 calls

recovered-IsValid : IsValid recovered
recovered-IsValid = run_calls-IsValid 5 (
    recover_pieces 100_000_000_000 ((0, 4) ∷ (1, 4) ∷ (2, 4) ∷ [])
    ∷ set_protected (λ i. i == 0)
    ∷ [])

run_calls-IsValid_example : IsValid (run_calls calls (new_piece_lru 12))
run_calls-IsValid_example = run_calls-IsValid 12 calls

recovered_budget :
    (0 < recovered.budget) × (recovered.budget < two_63) × (total_size recovered.lru_list < two_63)
unfolding program
recovered_budget = (omega arith, omega arith, omega arith)

compute_evictions-IsLeastCut_example :
    (k : ℕ) × (compute_evictions recovered ≡ indices (take k (eviction_order recovered)))
    × IsLeastCut recovered.budget (eviction_order recovered) k
compute_evictions-IsLeastCut_example =
    compute_evictions-IsLeastCut recovered recovered-IsValid recovered_budget.0 recovered_budget.1
      recovered_budget.2

three_budget :
    (0 < three.budget)
    × (three.budget < two_63)
    × (total_size three.lru_list + 4 < two_63)
    × (three.used ≤ three.budget)
unfolding program
three_budget = (omega arith, omega arith, omega arith, omega arith)

compute_evictions-shed_example : compute_evictions recovered ≡ (
    if le64 recovered.budget 0
    then []
    else shed recovered.budget recovered.used (eviction_order recovered))
compute_evictions-shed_example = compute_evictions-shed recovered

-- Every cached piece belongs to a completed file.
abbrev guarded_calls : List Call
guarded_calls =
    set_protected (λ i. ltb i 3) ∷ add_piece 100 0 4 ∷ add_piece 200 1 4 ∷ add_piece 300 2 4 ∷ []

abbrev guarded_three : PieceLru
guarded_three = run_calls guarded_calls (new_piece_lru 12)

guarded_three_lem :
    (find 3 guarded_three.lru_list ≡ none)
    × (protects guarded_three.is_protected 3 ≡ false)
    × AllProtected (protects guarded_three.is_protected) guarded_three.lru_list
    × (0 < guarded_three.budget)
    × (guarded_three.budget < total_size guarded_three.lru_list + 4)
    × (total_size guarded_three.lru_list + 4 < two_63)
unfolding program
guarded_three_lem = (refl, refl, (refl, (refl, (refl, tt))), omega arith, omega arith, omega arith)

add_evicts_newest_example : (rest : List ℕ) × ((add 400 3 4 guarded_three).1 ≡ 3 ∷ rest)
add_evicts_newest_example =
    add_evicts_newest 400 3 4 guarded_three (run_calls-IsValid 12 guarded_calls) guarded_three_lem.0
      guarded_three_lem.1 guarded_three_lem.2 guarded_three_lem.3 guarded_three_lem.4
      guarded_three_lem.5
