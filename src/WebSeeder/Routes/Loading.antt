-- ===== src/WebSeeder/Routes/Loading.antt =====
-- What a request does to the map of torrents.
use torrent_web_seeder.Prelude.{
  Result, ok, err, ℕ, Bool, true, is_nil, ◌≡◌, ap, ◌∙◌, refl, sym, subst, ◌⊎◌, false, inl, inr,
  Option, none, some, Option-cases, List, [], ◌∷◌, if◌then◌else◌, if_split, Text,
}
use torrent_web_seeder.TorrentMap.{TorrentMap, got, get_torrent}
use torrent_web_seeder.TorrentMap.Running.{IsValid, step-IsValid, Outcome-cases}
use torrent_web_seeder.WebSeeder.Request.{Request}
use torrent_web_seeder.WebSeeder.Calls.{Services, Call}
use torrent_web_seeder.WebSeeder.Available.Streaming.{header_calls, stream_stats_cases}
use torrent_web_seeder.WebSeeder.Available.{available_without_torrent, stat_stream, serve_stats}
use torrent_web_seeder.WebSeeder.Vault.{Attempt}
use torrent_web_seeder.WebSeeder.Files.{
  opening_calls, not_modified, try_vault, serve_from_torrent, after_calls, find_content, serve_file,
}
use torrent_web_seeder.WebSeeder.Pages.{render_torrent_index, render_torrent}
use torrent_web_seeder.WebSeeder.Routes.{
  Route, index, stats, done, torrent_index, source_torrent, file, route, handle, serve_http,
}

-- A file that the client does not hold, that is not in the cache, and that the vault does not serve.
unfoldable pub NeedsReader : Services → Request → Text → Text → Type 0
NeedsReader S r h p =
    (not_modified S r (S.etag h p) ≡ false)
    × (S.cache h p ≡ ok [])
    × ((try_vault S S.vault r h p).served ≡ false)

-- Content that is not available without the torrent, asked for by its hash, on a writer that streams.
unfoldable pub NeedsStream : Services → Text → Text → Type 0
NeedsStream S h p =
    (available_without_torrent S h p ≡ ok false)
    × (S.is_handler ≡ true)
    × (S.can_flush ≡ true)
    × (is_nil h ≡ false)

unfoldable pub NeedsTorrent : Services → Request → Route → Text → Type 0
NeedsTorrent S r x h =
    (x ≡ torrent_index h)
    ⊎ ((x ≡ source_torrent h)
        ⊎ (((p : Text) × (x ≡ file h p) × NeedsReader S r h p)
            ⊎ ((p : Text) × (x ≡ stats h p) × NeedsStream S h p)))

after_calls-map :
    (S : Services) (calls : List Call) (out : TorrentMap × Option (List Call))
    → (after_calls S calls out).0 ≡ out.0
unfolding after_calls
after_calls-map S calls (s, none) = refl
after_calls-map S calls (s, some next) = refl

module _ (S : Services) (now : ℕ) (r : Request) (s : TorrentMap) where
  -- The map is kept, or a torrent that is needed is got.
  LeftOrGot : (Text → Type 0) → TorrentMap → Type 0
  LeftOrGot Needed t = (t ≡ s) ⊎ ((h : Text) × Needed h × (t ≡ (get_torrent now S.sources h s).0))

  got_map :
      (Needed : Text → Type 0) (h : Text) (t : TorrentMap)
      → Needed h
      → t ≡ (get_torrent now S.sources h s).0
      → LeftOrGot Needed t
  unfolding LeftOrGot
  got_map Needed h t n e = inr (h, n, e)

  -- An answer that leaves the map as it is, behind the headers.
  left_map : (Needed : Text → Type 0) (t : TorrentMap) → t ≡ s → LeftOrGot Needed t
  unfolding LeftOrGot
  left_map Needed t e = inl e

  attempt_map :
      (Needed : Text → Type 0) (h p : Text) (a : Attempt)
      → (a.served ≡ false → Needed h)
      → LeftOrGot Needed
          (if a.served
            then (s, some a.calls)
            else after_calls S a.calls (serve_from_torrent S now s h p)).0
  unfolding serve_from_torrent
  attempt_map Needed h p a needed =
      if_split (λ (out : TorrentMap × Option (List Call)). LeftOrGot Needed out.0) a.served
        (λ e. left_map Needed s refl)
        (λ e. got_map Needed h _ (needed e) (after_calls-map S a.calls _))

  find_content_map :
      (h p : Text)
      → not_modified S r (S.etag h p) ≡ false
      → (found : Result Text) → S.cache h p ≡ found
      → LeftOrGot (NeedsTorrent S r (file h p)) (find_content S now r s h p found).0
  unfolding find_content NeedsTorrent NeedsReader
  find_content_map h p fresh (err e) q = left_map _ s refl
  find_content_map h p fresh (ok (c ∷ cp)) q = left_map _ s refl
  find_content_map h p fresh (ok []) q =
      attempt_map _ h p (try_vault S S.vault r h p) (λ e. inr (inr (inl (p, refl, (fresh, q, e)))))

  serve_file_map :
      (h p : Text) → LeftOrGot (NeedsTorrent S r (file h p)) (serve_file S now r s h p).0
  unfolding serve_file
  serve_file_map h p =
      if_split
        (λ (out : TorrentMap × Option (List Call)). LeftOrGot (NeedsTorrent S r (file h p)) out.0)
        (not_modified S r (S.etag h p)) (λ e. left_map _ s refl)
        (λ fresh.
          subst (LeftOrGot (NeedsTorrent S r (file h p)))
            (sym (after_calls-map S (opening_calls r h p) _))
            (find_content_map h p fresh (S.cache h p) refl))

  render_torrent_index_map :
      (h : Text) → (render_torrent_index S now r s h).0 ≡ (get_torrent now S.sources h s).0
  unfolding render_torrent_index
  render_torrent_index_map h = elim (Outcome-cases (get_torrent now S.sources h s).1) [
    | inl e ↦ rw (render_torrent_index, e) refl
    | inr (inl e) ↦ rw (render_torrent_index, e) refl
    | inr (inr e) ↦ rw (render_torrent_index, e) refl
  ]

  render_torrent_map : (h : Text) → (render_torrent S now s h).0 ≡ (get_torrent now S.sources h s).0
  unfolding render_torrent
  render_torrent_map h = elim (Outcome-cases (get_torrent now S.sources h s).1) [
    | inl e ↦ rw (render_torrent, e) refl
    | inr (inl e) ↦ rw (render_torrent, e) refl
    | inr (inr e) ↦ rw (render_torrent, e) refl
  ]

  stat_stream_map :
      (h p : Text)
      → available_without_torrent S h p ≡ ok false
      → S.is_handler ≡ true
      → S.can_flush ≡ true
      → LeftOrGot (NeedsTorrent S r (stats h p)) (stat_stream S now s h p).0
  unfolding stat_stream NeedsTorrent NeedsStream
  stat_stream_map h p left handler flushes =
      if_split
        (λ (out : TorrentMap × Option (List Call)). LeftOrGot (NeedsTorrent S r (stats h p)) out.0)
        (is_nil h) (λ e. left_map _ s refl)
        (λ named. got_map _ h _ (inr (inr (inr (p, refl, (left, handler, flushes, named))))) refl)

  serve_stats_map :
      (h p : Text) (a : Result Bool)
      → available_without_torrent S h p ≡ a
      → LeftOrGot (NeedsTorrent S r (stats h p)) (serve_stats S now s h p).0
  unfolding serve_stats
  serve_stats_map h p (err e) q = rw (serve_stats, q) (left_map _ s refl)
  serve_stats_map h p (ok true) q = rw (serve_stats, q) (left_map _ s refl)
  serve_stats_map h p (ok false) q =
      rw (serve_stats, q)
        (elim (stream_stats_cases S now s h p) [
          | inl (e, w, k) ↦ left_map _ _ (ap (λ x. x.0) k)
          | inr (handler, flushes, k) ↦
              subst (LeftOrGot (NeedsTorrent S r (stats h p)))
                (sym (ap (λ x. x.0) k ∙ after_calls-map S header_calls (stat_stream S now s h p)))
                (stat_stream_map h p q handler flushes)
        ])

  handle_map : (x : Route) → LeftOrGot (NeedsTorrent S r x) (handle S now r s x).0
  unfolding handle NeedsTorrent
  handle_map index = left_map _ s refl
  handle_map (stats h p) = serve_stats_map h p (available_without_torrent S h p) refl
  handle_map (done h p) = left_map _ s refl
  handle_map (torrent_index h) = got_map _ h _ (inl refl) (render_torrent_index_map h)
  handle_map (source_torrent h) = got_map _ h _ (inr (inl refl)) (render_torrent_map h)
  handle_map (file h p) = serve_file_map h p

  LeftOrGot-IsValid :
      (Needed : Text → Type 0) (t : TorrentMap) → IsValid s → LeftOrGot Needed t → IsValid t
  unfolding LeftOrGot
  LeftOrGot-IsValid Needed t v (inl e) = subst IsValid (sym e) v
  LeftOrGot-IsValid Needed t v (inr (h, n, e)) =
      subst IsValid (sym e) (step-IsValid {now = now} (got S.sources h) v)

-- A request leaves the torrents and their timers as they are, or it gets the torrent of its route.
-- It gets the torrent for its index page, for its metadata, for a file that the client does not
-- hold, that is not in the cache, and that the vault does not serve, or for the status of content
-- that is not available without the torrent, on a writer that streams. What the goroutine of such a
-- stream asks for later is not counted.
pub serve_http_loads :
    (S : Services) (now : ℕ) (r : Request) (s : TorrentMap)
    → ((serve_http S now r s).0 ≡ s)
      ⊎ ((x : Route) × (route r ≡ some x)
          × ((h : Text) × NeedsTorrent S r x h
              × ((serve_http S now r s).0 ≡ (get_torrent now S.sources h s).0)))
unfolding serve_http LeftOrGot
serve_http_loads S now r s = elim (Option-cases (route r)) [
  | inl n ↦ rw (serve_http, n) (inl refl)
  | inr (x, e) ↦
      rw (serve_http, e)
        (elim (handle_map S now r s x) [
          | inl l ↦ inl l
          | inr (h, needed, g) ↦ inr (x, refl, (h, needed, g))
        ])
]

-- A request keeps the map of torrents valid: one timer for each torrent, counted by the gauge, and
-- a timer for each loaded torrent. What the goroutine of a status stream asks for later is not
-- counted.
pub serve_http-IsValid :
    (S : Services) (now : ℕ) (r : Request) (s : TorrentMap)
    → IsValid s
    → IsValid (serve_http S now r s).0
unfolding serve_http
serve_http-IsValid S now r s v = elim (Option-cases (route r)) [
  | inl n ↦ rw (serve_http, n) v
  | inr (x, e) ↦ rw (serve_http, e) (LeftOrGot-IsValid S now r s _ _ v (handle_map S now r s x))
]
