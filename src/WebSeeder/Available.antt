-- ===== src/WebSeeder/Available.antt =====
-- availableWithoutTorrent, serveStats and serveDone.
pub mod Streaming
pub mod Exact
pub mod OnRecord
use torrent_web_seeder.Prelude.{
  Result, ok, err, ℕ, Bool, true, false, Option, none, some, List, [], ◌∷◌, ltb, map, if◌then◌else◌,
  Text, codes, is_nil,
}
use torrent_web_seeder.TorrentMap.{TorrentMap, Outcome, get_torrent, failed, no_torrent, torrent}
use torrent_web_seeder.StatWeb.{serve_front}
use torrent_web_seeder.WebSeeder.Files.{after_calls}
use torrent_web_seeder.WebSeeder.Calls.{
  Services, Call, header_set, error_sent, not_found_sent, stats_streamed,
}

module _ (S : Services) where
  open S use {
    cache, dir_complete, total_files, dir_file_count, vault, stream, is_handler, can_flush, sources,
    torrent_error,
  }

  -- A number of files that is known and positive, all of them on record as complete. Errors are
  -- logged only.
  unfoldable pub all_files_complete : Text → Text → Result ℕ → Bool
  all_files_complete h dir (err e) = false
  all_files_complete h dir (ok n) =
      if ltb 0 n then elim (dir_complete h dir n) [ err e ↦ false | ok b ↦ b ] else false

  unfoldable pub in_vault : Text → Bool
  in_vault h = elim vault [
    | none ↦ false
    | some get ↦ elim (get h) [ err e ↦ false | ok url ↦ if is_nil url then false else true ]
  ]

  unfoldable pub available_without_torrent : Text → Text → Result Bool
  unfolding all_files_complete in_vault
  available_without_torrent h [] =
      ok (if all_files_complete h [] (total_files h) then true else in_vault h)
  available_without_torrent h (c ∷ p) = elim (cache h (c ∷ p)) [
    | err e ↦ err e
    | ok (d ∷ cp) ↦ ok true
    | ok [] ↦
        ok (if all_files_complete h (c ∷ p) (dir_file_count h (c ∷ p)) then true else in_vault h)
  ]

  -- StatStream behind TorrentMap.Get. A nil torrent panics: its channel Closed is asked for.
  unfoldable pub stream_calls : Text → Text → Outcome → Option (List Call)
  stream_calls h p failed = some (error_sent (torrent_error h) 500 ∷ [])
  stream_calls h p no_torrent = none
  stream_calls h p torrent =
      some (stats_streamed h p ∷ (elim (stream h p) [ none ↦ [] | some e ↦ error_sent e 500 ∷ [] ]))

  -- StatStream, as the handler sees it. What its goroutine asks of the torrents later is not part
  -- of it.
  unfoldable pub stat_stream : ℕ → TorrentMap → Text → Text → TorrentMap × Option (List Call)
  unfolding stream_calls
  stat_stream now s h p =
      if is_nil h
      then (s, some (error_sent (codes "no info-hash provided") 500 ∷ []))
      else (let (s', outcome) = get_torrent now sources h s in (s', stream_calls h p outcome))

  -- StatWeb.Serve, with what serveStats does with its error.
  unfoldable pub stream_stats : ℕ → TorrentMap → Text → Text → TorrentMap × Option (List Call)
  unfolding stat_stream serve_front after_calls
  stream_stats now s h p = elim (serve_front is_handler can_flush) [
    | err e ↦ (s, some (error_sent e 500 ∷ []))
    | ok headers ↦
        after_calls S (map (λ (kv : Text × Text). header_set kv.0 kv.1) headers)
          (stat_stream now s h p)
  ]

  unfoldable pub serve_stats : ℕ → TorrentMap → Text → Text → TorrentMap × Option (List Call)
  unfolding available_without_torrent stream_stats
  serve_stats now s h p = elim (available_without_torrent h p) [
    | err e ↦ (s, some (error_sent (codes "failed to check availability") 500 ∷ []))
    | ok true ↦ (s, some (not_found_sent ∷ []))
    | ok false ↦ stream_stats now s h p
  ]

  unfoldable pub serve_done : Text → Text → List Call
  unfolding available_without_torrent
  serve_done h p = elim (available_without_torrent h p) [
    | err e ↦ error_sent (codes "failed to check availability") 500 ∷ []
    | ok true ↦ []
    | ok false ↦ not_found_sent ∷ []
  ]
