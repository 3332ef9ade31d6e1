-- ===== src/WebSeeder/Files.antt =====
-- serveFile and getTorrentReader. The map of torrents is passed on, as Get changes it.
use torrent_web_seeder.Prelude.{
  Result, ok, err, ℕ, Bool, false, ◌&&◌, ◌||◌, not, Option, none, some, List, [], ◌∷◌, ◌++◌,
  if◌then◌else◌, Text, text_eq, codes, is_nil, base, contains,
}
use torrent_web_seeder.TorrentMap.{TorrentMap, Outcome, get_torrent, failed, no_torrent, torrent}
use torrent_web_seeder.WebSeeder.Request.{Request, has_key}
use torrent_web_seeder.WebSeeder.Calls.{
  Services, cached_file, torrent_file, Call, file_touched, header_set, status_written, error_sent,
  not_found_sent, content_served,
}
use torrent_web_seeder.WebSeeder.Vault.{Attempt, redirect_from_vault}

-- time.Unix(0, 0).Format(http.TimeFormat)
abbrev pub last_modified : Text
last_modified = codes "Thu, 01 Jan 1970 00:00:00 GMT"

unfoldable pub common_headers : Request → Text → List Call
common_headers r p =
    (if has_key (codes "download") r.query
      then header_set (codes "Content-Type") (codes "application/octet-stream")
        ∷ header_set (codes "Content-Disposition")
            (codes "attachment; filename=\"" ++ (base p ++ codes "\""))
        ∷ []
      else [])
    ++ (if is_nil r.origin
        then []
        else header_set (codes "Access-Control-Allow-Credentials") (codes "true")
          ∷ header_set (codes "Access-Control-Allow-Origin") (codes "*")
          ∷ [])

-- What serveFile does in front of its conditions.
unfoldable pub opening_calls : Request → Text → Text → List Call
unfolding common_headers
opening_calls r h p = file_touched h ∷ common_headers r p

-- The headers that let a client keep the content.
unfoldable pub validators : Text → List Call
validators etag =
    header_set (codes "Last-Modified") last_modified ∷ header_set (codes "Etag") etag ∷ []

unfoldable pub has_path : Text → List Text → Bool
has_path p [] = false
has_path p (f ∷ fs) = text_eq f p || has_path p fs

module _ (S : Services) where
  open S use {cache, vault, opens, torrent_error, torrent_of, sources, etag, since_epoch}

  unfoldable pub not_modified : Request → Text → Bool
  not_modified r tag =
      (not (is_nil r.if_none_match) && text_eq r.if_none_match tag)
      || (not (is_nil r.if_modified_since) && since_epoch r.if_modified_since)

  unfoldable pub serve_cached : Text → Text → List Call
  unfolding validators
  serve_cached cp tag =
      validators tag
      ++ (if opens cp
          then content_served (cached_file cp) ∷ []
          else error_sent (codes "failed to open cached file") 500 ∷ [])

  -- By the text of the error of TorrentMap.Get.
  unfoldable pub torrent_failure : Text → Call
  torrent_failure e =
      if contains e (codes "PermissionDenied")
      then error_sent (codes "permission denied") 403
      else if contains e (codes "NotFound")
      then error_sent (codes "not found") 404
      else error_sent (codes "failed to get reader") 500

  -- What serveFile does with the result of getTorrentReader. The files of a nil torrent panic.
  unfoldable pub reader_calls : Text → Text → Outcome → Option (List Call)
  unfolding torrent_failure validators has_path
  reader_calls h p failed = some (torrent_failure (torrent_error h) ∷ [])
  reader_calls h p no_torrent = none
  reader_calls h p torrent = some (
      if has_path p (torrent_of h).files
      then validators (etag h p) ++ (content_served (torrent_file h p) ∷ [])
      else not_found_sent ∷ [])

  unfoldable pub serve_from_torrent : ℕ → TorrentMap → Text → Text → TorrentMap × Option (List Call)
  unfolding reader_calls
  serve_from_torrent now s h p =
      let (s', outcome) = get_torrent now sources h s in (s', reader_calls h p outcome)

  -- The vault's attempt, if there is a vault; an error falls back to the torrent.
  unfoldable pub try_vault : Option (Text → Result Text) → Request → Text → Text → Attempt
  unfolding redirect_from_vault
  try_vault none r h p = record { calls = []; served = false; failed = false }
  try_vault (some get) r h p = redirect_from_vault S get r h p

  -- Calls in front of what is done next.
  unfoldable pub after_calls :
      List Call → TorrentMap × Option (List Call) → TorrentMap × Option (List Call)
  after_calls calls (s, none) = (s, none)
  after_calls calls (s, some next) = (s, some (calls ++ next))

  -- serveFile behind the conditional headers, by what the file cache answers.
  unfoldable pub find_content :
      ℕ → Request → TorrentMap → Text → Text → Result Text → TorrentMap × Option (List Call)
  unfolding serve_cached try_vault serve_from_torrent after_calls
  find_content now r s h p (err e) =
      (s, some (error_sent (codes "failed to check file cache") 500 ∷ []))
  find_content now r s h p (ok (c ∷ cp)) = (s, some (serve_cached (c ∷ cp) (etag h p)))
  find_content now r s h p (ok []) =
      let a = try_vault vault r h p in
      if a.served then (s, some a.calls) else after_calls a.calls (serve_from_torrent now s h p)

  unfoldable pub serve_file :
      ℕ → Request → TorrentMap → Text → Text → TorrentMap × Option (List Call)
  unfolding not_modified find_content opening_calls after_calls
  serve_file now r s h p =
      if not_modified r (etag h p)
      then (s, some (opening_calls r h p ++ (status_written 304 ∷ [])))
      else after_calls (opening_calls r h p) (find_content now r s h p (cache h p))
