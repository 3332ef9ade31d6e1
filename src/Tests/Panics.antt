-- ===== src/Tests/Panics.antt =====
-- Requests that end in a panic: a torrent that no store has, and an empty path.
use torrent_web_seeder.Prelude.{◌↔◌, ◌≡◌, ◌⊎◌, refl, false, none, some, [], is_nil, Text, inl}
use torrent_web_seeder.TorrentMap.{Sources, missing, new_torrent_map}
use torrent_web_seeder.WebSeeder.Request.{Request}
use torrent_web_seeder.WebSeeder.Calls.{Services}
use torrent_web_seeder.WebSeeder.Routes.{Route, route, serve_http}
use torrent_web_seeder.WebSeeder.Routes.Loading.{NeedsTorrent}
use torrent_web_seeder.WebSeeder.Routes.Needing.{IsUnknown}
use torrent_web_seeder.WebSeeder.Routes.Panicking.{serve_http_panics}
use torrent_web_seeder.Tests.Web.{hash, sources, bare, request}

abbrev no_sources : Sources
no_sources = record sources { torrent_store = λ h. missing }

abbrev lost : Services
lost = record bare { sources = no_sources }

abbrev pathless : Request
pathless = record request { path = []; info_hash = hash }

serve_http_panics_example : ((serve_http lost 0 request new_torrent_map).1 ≡ none) ↔ (
    ((is_nil request.info_hash ≡ false) × (request.path ≡ []))
    ⊎ ((x : Route) × (route request ≡ some x)
        × ((h : Text) × NeedsTorrent lost request x h × IsUnknown no_sources h)))
serve_http_panics_example = serve_http_panics lost 0 request new_torrent_map

pathless_panics : (serve_http bare 0 pathless new_torrent_map).1 ≡ none
pathless_panics = (serve_http_panics bare 0 pathless new_torrent_map).1 (inl (refl, refl))
