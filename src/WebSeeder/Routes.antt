-- ===== src/WebSeeder/Routes.antt =====
-- ServeHTTP.
pub mod Paths
pub mod Answers
pub mod Serving
pub mod Loading
pub mod Needing
pub mod Pathless
pub mod Panicking
use torrent_web_seeder.Prelude.{
  ℕ, Bool, true, false, Option, none, some, List, [], ◌∷◌, ◌++◌, if◌then◌else◌, Text, text_eq,
  codes, is_nil, trim_prefix,
}
use torrent_web_seeder.TorrentMap.{TorrentMap}
use torrent_web_seeder.WebSeeder.Request.{Request, has_key, get_hash}
use torrent_web_seeder.WebSeeder.Calls.{Services, Call}
use torrent_web_seeder.WebSeeder.Available.{serve_stats, serve_done}
use torrent_web_seeder.WebSeeder.Files.{serve_file}
use torrent_web_seeder.WebSeeder.Pages.{
  source_torrent_path, render_index, render_torrent_index, render_torrent,
}

-- Which handler a request goes to, with the hash and the path in the torrent.
pub data Route : Type 0 where
  index : Route
  stats done : Text → Text → Route
  torrent_index source_torrent : Text → Route
  file : Text → Text → Route

-- r.URL.Path[1:], which panics on the empty path, without the hash in front.
unfoldable pub path_in_torrent : Text → Text → Option Text
unfolding trim_prefix
path_in_torrent h [] = none
path_in_torrent h (c ∷ path) = some (trim_prefix path (h ++ codes "/"))

unfoldable pub route_path : Request → Text → Text → Route
route_path r h p =
    if has_key (codes "stats") r.query
    then stats h p
    else if has_key (codes "done") r.query
    then done h p
    else if is_nil p
    then torrent_index h
    else if text_eq p source_torrent_path
    then source_torrent h
    else file h p

unfoldable pub route_from : Request → Text → Option Route
unfolding path_in_torrent route_path
route_from r h =
    if is_nil h
    then some index
    else elim (path_in_torrent h r.path) [ none ↦ none | some p ↦ some (route_path r h p) ]

unfoldable pub route : Request → Option Route
unfolding get_hash route_from
route r = route_from r (get_hash r)

module _ (S : Services) where
  unfoldable pub handle : ℕ → Request → TorrentMap → Route → TorrentMap × Option (List Call)
  handle now r s index = (s, some (render_index S r))
  handle now r s (stats h p) = serve_stats S now s h p
  handle now r s (done h p) = (s, some (serve_done S h p))
  handle now r s (torrent_index h) = render_torrent_index S now r s h
  handle now r s (source_torrent h) = render_torrent S now s h
  handle now r s (file h p) = serve_file S now r s h p

  unfoldable pub serve_http : ℕ → Request → TorrentMap → TorrentMap × Option (List Call)
  unfolding route handle
  serve_http now r s = elim (route r) [ none ↦ (s, none) | some x ↦ handle now r s x ]
