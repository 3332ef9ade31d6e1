-- ===== src/WebSeeder/Pages.antt =====
-- renderIndex, renderTorrentIndex and renderTorrent.
use torrent_web_seeder.Prelude.{
  ok, err, ℕ, Option, none, some, List, [], ◌∷◌, ◌++◌, map, if◌then◌else◌, Text, codes, join,
}
use torrent_web_seeder.TorrentMap.{TorrentMap, get_torrent, failed, no_torrent, torrent}
use torrent_web_seeder.WebSeeder.Request.{Request}
use torrent_web_seeder.WebSeeder.Calls.{
  Services, Torrent, Call, header_set, error_sent, heading, link, metainfo_encoded,
}

-- SourceTorrentPath
abbrev pub source_torrent_path : Text
source_torrent_path = codes "source.torrent"

-- addA
unfoldable pub add_a : Text → Request → Call
add_a path r = link path r.raw_query

unfoldable pub torrent_links : Torrent → Request → List Call
unfolding add_a
torrent_links t r = map (λ f. add_a (join (t.name ∷ f) (codes "/")) r) t.upverted

module _ (S : Services) where
  open S use {list, sources, torrent_of, encodes}

  unfoldable pub render_index : Request → List Call
  unfolding add_a
  render_index r = elim list [
    | err e ↦ error_sent e 500 ∷ []
    | ok hs ↦ heading (codes "Index") ∷ map (λ h. add_a (h ++ codes "/") r) hs
  ]

  -- The info of a nil torrent panics.
  unfoldable pub render_torrent_index :
      ℕ → Request → TorrentMap → Text → TorrentMap × Option (List Call)
  unfolding add_a torrent_links
  render_torrent_index now r s h =
      let (s', outcome) = get_torrent now sources h s in
      elim outcome [
        | failed ↦ (s', some (error_sent (codes "failed to get torrent") 500 ∷ []))
        | no_torrent ↦ (s', none)
        | torrent ↦ (
          s',
          some (
              heading h
              ∷ add_a (codes "..") r
              ∷ add_a source_torrent_path r
              ∷ torrent_links (torrent_of h) r),
        )
      ]

  unfoldable pub render_torrent : ℕ → TorrentMap → Text → TorrentMap × Option (List Call)
  render_torrent now s h =
      let (s', outcome) = get_torrent now sources h s in
      elim outcome [
        | failed ↦ (s', some (error_sent (codes "failed to get torrent") 500 ∷ []))
        | no_torrent ↦ (s', none)
        | torrent ↦ (
          s',
          some (
              header_set (codes "Content-Type") (codes "application/x-bittorrent")
              ∷ metainfo_encoded h
              ∷ (if encodes h then [] else error_sent (codes "failed to encode torrent") 500 ∷ [])),
        )
      ]
