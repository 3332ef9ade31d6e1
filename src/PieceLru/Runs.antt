-- ===== src/PieceLru/Runs.antt =====
-- Threads call the tracker one locked method at a time: every interleaving is a list of calls.
use torrent_web_seeder.Prelude.{ℕ, Bool, List, [], ◌∷◌, Int64}
use torrent_web_seeder.PieceLru.{
  PieceLru, new_piece_lru, set_protected_func, touch, add, remove, recover,
}
use torrent_web_seeder.PieceLru.Invariant.{
  IsValid, new-IsValid, touch-IsValid, add-IsValid, remove-IsValid, recover-IsValid,
}

pub data Call : Type 0 where
  set_protected : (ℕ → Bool) → Call
  touch_piece : Int64 → ℕ → Call
  add_piece : Int64 → ℕ → Int64 → Call
  remove_piece : ℕ → Call
  recover_pieces : Int64 → List (ℕ × Int64) → Call

unfoldable pub call : Call → PieceLru → PieceLru
call (set_protected fn) l = set_protected_func l fn
call (touch_piece now i) l = touch now i l
call (add_piece now i size) l = (add now i size l).0
call (remove_piece i) l = remove i l
call (recover_pieces now ps) l = recover now ps l

unfoldable pub run_calls : List Call → PieceLru → PieceLru
run_calls [] l = l
run_calls (c ∷ cs) l = run_calls cs (call c l)

call-IsValid : (c : Call) (l : PieceLru) → IsValid l → IsValid (call c l)
unfolding call set_protected_func
call-IsValid (set_protected fn) l v = record {
  distinct = v.distinct;
  agrees = v.agrees;
  accounted = v.accounted;
}
call-IsValid (touch_piece now i) l v = touch-IsValid now i l v
call-IsValid (add_piece now i size) l v = add-IsValid now i size l v
call-IsValid (remove_piece i) l v = remove-IsValid i l v
call-IsValid (recover_pieces now ps) l v = recover-IsValid now ps l v

run_calls_from-IsValid : (cs : List Call) (l : PieceLru) → IsValid l → IsValid (run_calls cs l)
unfolding run_calls
run_calls_from-IsValid [] l v = v
run_calls_from-IsValid (c ∷ cs) l v = run_calls_from-IsValid cs (call c l) (call-IsValid c l v)

-- After any sequence of calls on a new tracker, the map and the list hold the same entries, no
-- piece is listed twice, and `used` is the total size of the tracked pieces modulo 2^64.
pub run_calls-IsValid :
    (budget : Int64) (cs : List Call) → IsValid (run_calls cs (new_piece_lru budget))
run_calls-IsValid budget cs = run_calls_from-IsValid cs (new_piece_lru budget) (new-IsValid budget)
