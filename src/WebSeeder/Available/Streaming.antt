-- ===== src/WebSeeder/Available/Streaming.antt =====
-- The ways that the front of a status stream ends.
use torrent_web_seeder.Prelude.{
  ℕ, ◌≡◌, ◌≢◌, refl, sym, ◌∙◌, ap, ◌⊎◌, true, false, inl, inr, Bool-cases, Option, none, some, List,
  [], ◌∷◌, map, Text, codes,
}
use torrent_web_seeder.TorrentMap.{TorrentMap}
use torrent_web_seeder.StatWeb.{stream_headers, serve_front}
use torrent_web_seeder.WebSeeder.Calls.{Services, Call, header_set, error_sent, not_found_sent}
use torrent_web_seeder.WebSeeder.Files.{after_calls}
use torrent_web_seeder.WebSeeder.Available.{stat_stream, stream_stats}

abbrev pub header_calls : List Call
header_calls = map (λ (kv : Text × Text). header_set kv.0 kv.1) stream_headers

module _ (S : Services) (now : ℕ) (s : TorrentMap) (h p : Text) where
  pub stream_stats-streams :
      S.is_handler ≡ true
      → S.can_flush ≡ true
      → stream_stats S now s h p ≡ after_calls S header_calls (stat_stream S now s h p)
  unfolding stream_stats serve_front
  stream_stats-streams handler flushes = rw (stream_stats, serve_front, handler, flushes) refl

  -- The writer does not stream, or the stream is entered behind its headers.
  pub stream_stats_cases :
      ((e : Text) × ((S.is_handler ≡ false) ⊎ (S.can_flush ≡ false))
        × (stream_stats S now s h p ≡ (s, some (error_sent e 500 ∷ []))))
      ⊎ ((S.is_handler ≡ true)
          × (S.can_flush ≡ true)
          × (stream_stats S now s h p ≡ after_calls S header_calls (stat_stream S now s h p)))
  unfolding stream_stats serve_front
  stream_stats_cases = elim (Bool-cases S.is_handler) [
    | inr no_handler ↦ inl (
      codes "unable to get writer",
      inl no_handler,
      rw (stream_stats, serve_front, no_handler) refl,
    )
    | inl handler ↦ elim (Bool-cases S.can_flush) [
      | inr no_flush ↦ inl (
        codes "streaming unsupported",
        inr no_flush,
        rw (stream_stats, serve_front, handler, no_flush) refl,
      )
      | inl flushes ↦ inr (handler, flushes, stream_stats-streams handler flushes)
    ]
  ]

headed-≢-not_found :
    (S : Services) (out : TorrentMap × Option (List Call))
    → (after_calls S header_calls out).1 ≢ some (not_found_sent ∷ [])
unfolding after_calls
headed-≢-not_found S (s, none) e = cc
headed-≢-not_found S (s, some calls) e = cc

pub stream_stats-≢-not_found :
    (S : Services) (now : ℕ) (s : TorrentMap) (h p : Text)
    → (stream_stats S now s h p).1 ≢ some (not_found_sent ∷ [])
stream_stats-≢-not_found S now s h p e = elim (stream_stats_cases S now s h p) [
  | inl (f, w, q) ↦ refused (sym (ap (λ x. x.1) q) ∙ e)
  | inr (a, b, q) ↦ headed-≢-not_found S (stat_stream S now s h p) (sym (ap (λ x. x.1) q) ∙ e)
]
  where
    refused : {f : Text} → ¬ (some (error_sent f 500 ∷ []) ≡ some (not_found_sent ∷ []))
    refused e = cc
