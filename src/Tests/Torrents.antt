-- ===== src/Tests/Torrents.antt =====
-- server/services/torrent_map.go: two torrents, one of which is dropped.
use torrent_web_seeder.Prelude.{
  ◌+◌, ◌≡◌, refl, true, none, some, arith, codes, lookup, insert, delete, text_eq, text_Eq, Text,
}
use torrent_web_seeder.TorrentMap.{
  TorrentMap, new_torrent_map, runs_until, fired, Sources, missing, found, find_info, reset,
  keep_torrent, get_torrent, touch_torrent, fire, drop_torrent, touched, got, fires, drops, Steps,
  here, next, torrent, ttl,
}
use torrent_web_seeder.TorrentMap.Running.{IsValid, new_torrent_map-IsValid}
use torrent_web_seeder.TorrentMap.Dropping.{get_torrent_stays, get_torrent_dropped}

program : Unit {0}
unfolding get_torrent touch_torrent keep_torrent fire drop_torrent find_info reset lookup insert
    delete text_eq
program = tt

-- The file store has nothing, the torrent store everything.
abbrev sources : Sources
sources = record {
  MetaInfo = Text;
  client_ready = true;
  file_store = λ h. missing;
  torrent_store = found;
  can_add = λ m. true;
}

abbrev first : TorrentMap
first = (get_torrent 0 sources (codes "a") new_torrent_map).0

abbrev due : TorrentMap
due = fire (codes "a") (get_torrent 100 sources (codes "b") first).0

got_first : (get_torrent 0 sources (codes "a") new_torrent_map).1 ≡ torrent
unfolding program
got_first = refl

timer_due :
    lookup (codes "a") (get_torrent 100 sources (codes "b") first).0.timers ≡ some (runs_until ttl)
unfolding program
timer_due = refl

due_fired : lookup (codes "a") due.timers ≡ some fired
unfolding program
due_fired = refl

got_due : (get_torrent ttl sources (codes "a") due).1 ≡ torrent
unfolding program
got_due = refl

steps : Steps 0 new_torrent_map ttl (drop_torrent (codes "a") due)
steps = next {later = 0} (omega arith) (got sources (codes "a")) (
    next {later = 100} (omega arith) (got sources (codes "b")) (
      next {later = ttl} (omega arith) (fires (codes "a") ttl timer_due (omega arith))
        (next {later = ttl} (omega arith) (drops (codes "a") due_fired) here)))

new_torrent_map-IsValid_example : IsValid (drop_torrent (codes "a") due)
new_torrent_map-IsValid_example = new_torrent_map-IsValid 0 ttl (drop_torrent (codes "a") due) steps

not_fired : ¬ (lookup (codes "a") new_torrent_map.timers ≡ some fired)
unfolding program
not_fired h = cc

touch_later :
    Steps 0 first 500 (touch_torrent 500 (codes "b") (get_torrent 100 sources (codes "b") first).0)
touch_later =
    next {later = 100} (omega arith) (got sources (codes "b"))
      (next {later = 500} (omega arith) (touched (codes "b")) here)

get_torrent_stays_example :
    lookup
      (codes "a")
      (touch_torrent 500 (codes "b") (get_torrent 100 sources (codes "b") first).0).loaded
    ≡ some true
get_torrent_stays_example =
    get_torrent_stays 0 500 sources (codes "a") new_torrent_map
      (touch_torrent 500 (codes "b") (get_torrent 100 sources (codes "b") first).0) not_fired
      got_first touch_later (omega arith)

get_torrent_dropped_example :
    (t : TorrentMap) × Steps ttl (get_torrent ttl sources (codes "a") due).0 (ttl + 1) t
    × (lookup (codes "a") t.loaded ≡ none)
get_torrent_dropped_example =
    get_torrent_dropped ttl (ttl + 1) sources (codes "a") due due_fired got_due (omega arith)
