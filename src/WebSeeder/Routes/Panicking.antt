-- ===== src/WebSeeder/Routes/Panicking.antt =====
-- When ServeHTTP panics: there is no path to cut, or the torrent that is needed is nil.

use mathlib.Core.Option.{some-injective}
use torrent_web_seeder.Prelude.{
  ◌↔◌, Bool, none-≢-some, Result, ok, err, ℕ, ◌≡◌, refl, sym, ◌∙◌, subst, ◌⊎◌, true, false, inl,
  inr, Option, none, some, Option-cases, List, [], ◌∷◌, if◌then◌else◌, if_split, Text, is_nil,
}
use torrent_web_seeder.TorrentMap.{TorrentMap, Outcome, get_torrent, failed, no_torrent, torrent}
use torrent_web_seeder.TorrentMap.Running.{Outcome-cases}
use torrent_web_seeder.WebSeeder.Request.{Request}
use torrent_web_seeder.WebSeeder.Calls.{Services, Call}
use torrent_web_seeder.WebSeeder.Vault.{Attempt}
use torrent_web_seeder.WebSeeder.Files.{
  opening_calls, not_modified, try_vault, serve_from_torrent, reader_calls, after_calls,
  find_content, serve_file,
}
use torrent_web_seeder.WebSeeder.Available.{
  available_without_torrent, stream_calls, stat_stream, stream_stats, serve_stats,
}
use torrent_web_seeder.WebSeeder.Available.Streaming.{header_calls, stream_stats_cases}
use torrent_web_seeder.WebSeeder.Pages.{render_torrent_index, render_torrent}
use torrent_web_seeder.WebSeeder.Routes.{
  Route, index, stats, done, torrent_index, source_torrent, file, route, handle, serve_http,
}
use torrent_web_seeder.WebSeeder.Routes.Loading.{NeedsStream, NeedsTorrent, NeedsReader}
use torrent_web_seeder.WebSeeder.Routes.Needing.{
  stats_missing, stats_answered, IsUnknown, torrent_named, torrent_named_lem, NeedsMissing,
  torrent_missing, file_missing, answered, file_answered,
}
use torrent_web_seeder.WebSeeder.Routes.Pathless.{route-panics}

after_calls-panics :
    (S : Services) (calls : List Call) (out : TorrentMap × Option (List Call))
    → ((after_calls S calls out).1 ≡ none) ↔ (out.1 ≡ none)
unfolding after_calls
after_calls-panics S calls (s, none) = (λ h. refl, λ h. refl)
after_calls-panics S calls (s, some next) =
    (λ h. absurd (none-≢-some (sym h)), λ h. absurd (none-≢-some (sym h)))

module _ (S : Services) (now : ℕ) (r : Request) (s : TorrentMap) where
  reader_calls-panics :
      (h p : Text) (o : Outcome) → (reader_calls S h p o ≡ none) ↔ (o ≡ no_torrent)
  unfolding reader_calls
  reader_calls-panics h p failed = (λ e. cc, λ e. cc)
  reader_calls-panics h p no_torrent = (λ e. refl, λ e. refl)
  reader_calls-panics h p torrent = (λ e. cc, λ e. cc)

  render_torrent_index-panics :
      (h : Text)
      → ((render_torrent_index S now r s h).1 ≡ none)
        ↔ ((get_torrent now S.sources h s).1 ≡ no_torrent)
  unfolding render_torrent_index
  render_torrent_index-panics h = elim (Outcome-cases (get_torrent now S.sources h s).1) [
    | inl e ↦ rw (render_torrent_index, e) (λ q. cc, λ q. cc)
    | inr (inl e) ↦ rw (render_torrent_index, e) (λ q. refl, λ q. refl)
    | inr (inr e) ↦ rw (render_torrent_index, e) (λ q. cc, λ q. cc)
  ]

  render_torrent-panics :
      (h : Text)
      → ((render_torrent S now s h).1 ≡ none) ↔ ((get_torrent now S.sources h s).1 ≡ no_torrent)
  unfolding render_torrent
  render_torrent-panics h = elim (Outcome-cases (get_torrent now S.sources h s).1) [
    | inl e ↦ rw (render_torrent, e) (λ q. cc, λ q. cc)
    | inr (inl e) ↦ rw (render_torrent, e) (λ q. refl, λ q. refl)
    | inr (inr e) ↦ rw (render_torrent, e) (λ q. cc, λ q. cc)
  ]

  attempt-panics :
      (h p : Text) (a : Attempt)
      → (a.served ≡ true → ¬ NeedsReader S r h p)
      → (a.served ≡ false → NeedsReader S r h p)
      → ((if a.served
            then (s, some a.calls)
            else after_calls S a.calls (serve_from_torrent S now s h p)).1
          ≡ none)
        ↔ NeedsMissing S r (file h p)
  unfolding serve_from_torrent
  attempt-panics h p a free needed =
      if_split
        (λ (out : TorrentMap × Option (List Call)). (out.1 ≡ none) ↔ NeedsMissing S r (file h p))
        a.served (λ e. file_answered S now r s h p a.calls (free e))
        (λ e.
          let reads = reader_calls-panics h p (get_torrent now S.sources h s).1 in
          let kept = after_calls-panics S a.calls (serve_from_torrent S now s h p) in
          let missing = file_missing S now r s h p (needed e) in
          (λ q. missing.1 (reads.0 (kept.0 q)), λ m. kept.1 (reads.1 (missing.0 m))))

  find_content-panics :
      (h p : Text)
      → not_modified S r (S.etag h p) ≡ false
      → (found : Result Text) → S.cache h p ≡ found
      → ((find_content S now r s h p found).1 ≡ none) ↔ NeedsMissing S r (file h p)
  unfolding find_content NeedsReader
  find_content-panics h p fresh (err e) q = file_answered S now r s h p _ (λ n. cc)
  find_content-panics h p fresh (ok (c ∷ cp)) q = file_answered S now r s h p _ (λ n. cc)
  find_content-panics h p fresh (ok []) q =
      attempt-panics h p (try_vault S S.vault r h p) (λ e n. cc) (λ e. (fresh, q, e))

  serve_file-panics :
      (h p : Text) → ((serve_file S now r s h p).1 ≡ none) ↔ NeedsMissing S r (file h p)
  unfolding serve_file NeedsReader
  serve_file-panics h p =
      if_split
        (λ (out : TorrentMap × Option (List Call)). (out.1 ≡ none) ↔ NeedsMissing S r (file h p))
        (not_modified S r (S.etag h p)) (λ e. file_answered S now r s h p _ (λ n. cc))
        (λ fresh.
          let kept = after_calls-panics S (opening_calls r h p) _ in
          let content = find_content-panics h p fresh (S.cache h p) refl in
          (λ q. content.0 (kept.0 q), λ m. kept.1 (content.1 m)))

  stream_calls-panics :
      (h p : Text) (o : Outcome) → (stream_calls S h p o ≡ none) ↔ (o ≡ no_torrent)
  unfolding stream_calls
  stream_calls-panics h p failed = (λ e. cc, λ e. cc)
  stream_calls-panics h p no_torrent = (λ e. refl, λ e. refl)
  stream_calls-panics h p torrent = (λ e. cc, λ e. cc)

  stat_stream-panics :
      (h p : Text)
      → available_without_torrent S h p ≡ ok false
      → S.is_handler ≡ true
      → S.can_flush ≡ true
      → ((stat_stream S now s h p).1 ≡ none) ↔ NeedsMissing S r (stats h p)
  unfolding stat_stream NeedsStream
  stat_stream-panics h p left handler flushes =
      if_split
        (λ (out : TorrentMap × Option (List Call)). (out.1 ≡ none) ↔ NeedsMissing S r (stats h p))
        (is_nil h) (λ e. stats_answered S now r s h p _ (λ n. cc))
        (λ named.
          let asks = stream_calls-panics h p (get_torrent now S.sources h s).1 in
          let missing = stats_missing S now r s h p (left, handler, flushes, named) in
          (λ q. missing.1 (asks.0 q), λ m. asks.1 (missing.0 m)))

  stream_stats-panics :
      (h p : Text)
      → available_without_torrent S h p ≡ ok false
      → ((stream_stats S now s h p).1 ≡ none) ↔ NeedsMissing S r (stats h p)
  unfolding NeedsStream
  stream_stats-panics h p left = elim (stream_stats_cases S now s h p) [
    | inl (e, inl w, k) ↦ rw k (stats_answered S now r s h p _ (λ n. cc))
    | inl (e, inr w, k) ↦ rw k (stats_answered S now r s h p _ (λ n. cc))
    | inr (handler, flushes, k) ↦
        let kept = after_calls-panics S header_calls (stat_stream S now s h p) in
        let stream = stat_stream-panics h p left handler flushes in
        rw k (λ q. stream.0 (kept.0 q), λ m. kept.1 (stream.1 m))
  ]

  serve_stats-panics :
      (h p : Text) (a : Result Bool)
      → available_without_torrent S h p ≡ a
      → ((serve_stats S now s h p).1 ≡ none) ↔ NeedsMissing S r (stats h p)
  unfolding serve_stats NeedsStream
  serve_stats-panics h p (err e) q = rw (serve_stats, q) (stats_answered S now r s h p _ (λ n. cc))
  serve_stats-panics h p (ok true) q =
      rw (serve_stats, q) (stats_answered S now r s h p _ (λ n. cc))
  serve_stats-panics h p (ok false) q = rw (serve_stats, q) (stream_stats-panics h p q)

  handle-panics : (x : Route) → ((handle S now r s x).1 ≡ none) ↔ NeedsMissing S r x
  unfolding handle NeedsTorrent torrent_named
  handle-panics index =
      answered S now r s index _ (λ h n. none-≢-some (torrent_named_lem S r index h n))
  handle-panics (stats h p) = serve_stats-panics h p (available_without_torrent S h p) refl
  handle-panics (done h p) =
      answered S now r s (done h p) _ (λ h' n. none-≢-some (torrent_named_lem S r (done h p) h' n))
  handle-panics (torrent_index h) =
      let missing =
        torrent_missing S now r s (torrent_index h) h (inl refl)
          (λ h' n. some-injective _ _ (torrent_named_lem S r (torrent_index h) h' n)) in
      let page = render_torrent_index-panics h in
      (λ q. missing.1 (page.0 q), λ m. page.1 (missing.0 m))
  handle-panics (source_torrent h) =
      let missing =
        torrent_missing S now r s (source_torrent h) h (inr (inl refl))
          (λ h' n. some-injective _ _ (torrent_named_lem S r (source_torrent h) h' n)) in
      let page = render_torrent-panics h in (λ q. missing.1 (page.0 q), λ m. page.1 (missing.0 m))
  handle-panics (file h p) = serve_file-panics h p

-- ServeHTTP panics exactly when the request names its torrent in the header X-Info-Hash and has an
-- empty path, or when it needs a torrent, the client runs, and neither the file store nor the torrent
-- store fails or has the torrent. It needs the torrent for its index page, for its metadata, for a file that the client
-- does not hold, that is not in the cache, and that the vault does not serve, or for the status of
-- content that is not available without the torrent, on a writer that streams. The goroutine of a
-- status stream is not part of it.
pub serve_http_panics :
    (S : Services) (now : ℕ) (r : Request) (s : TorrentMap)
    → ((serve_http S now r s).1 ≡ none) ↔ (
        ((is_nil r.info_hash ≡ false) × (r.path ≡ []))
        ⊎ ((x : Route) × (route r ≡ some x)
            × ((h : Text) × NeedsTorrent S r x h × IsUnknown S.sources h)))
unfolding serve_http NeedsMissing
serve_http_panics S now r s = elim (Option-cases (route r)) [
  | inl n ↦ rw (serve_http, n) (λ e. inl ((route-panics r).0 n), λ e. refl)
  | inr (x, e) ↦
      let panics = handle-panics S now r s x in
      let routed : ¬ (route r ≡ none) = λ n. none-≢-some (sym n ∙ e) in
      rw (serve_http, e)
        (
          λ q. inr (x, refl, panics.0 q),
          λ m. elim m [
            | inl bare ↦ absurd (routed ((route-panics r).1 bare))
            | inr (x', same, needs) ↦
                panics.1 (subst (NeedsMissing S r) (sym (some-injective _ _ same)) needs)
          ],
        )
]
