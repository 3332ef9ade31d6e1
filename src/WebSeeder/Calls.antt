-- ===== src/WebSeeder/Calls.antt =====
-- The calls that a handler makes on its http.ResponseWriter, and the services it asks.
use torrent_web_seeder.Prelude.{ℕ, Bool, Option, Result, List, Text}
use torrent_web_seeder.TorrentMap.{Sources}

-- What http.ServeContent is given: a file of the cache, by its path on disk, or a reader of a file
-- of the torrent, by hash and path, behind a TouchWriter.
pub data Content : Type 0 where
  cached_file : Text → Content
  torrent_file : Text → Text → Content

pub data Call : Type 0 where
  file_touched : Text → Call  -- TouchMap.Touch, whose error is only logged
  header_set : Text → Text → Call
  status_written : ℕ → Call
  error_sent : Text → ℕ → Call  -- http.Error
  not_found_sent : Call  -- http.NotFound
  redirected : Text → ℕ → Call  -- http.Redirect
  content_served : Content → Call
  heading : Text → Call
  link : Text → Text → Call  -- an anchor to a path, with the query of the request
  metainfo_encoded : Text → Call
  stats_streamed : Text → Text → Call  -- the events of StatStream

-- What the vault answers to a request for a file. A header that is absent reads as empty.
pub record VaultReply : Type 0 where
  pub status_code : ℕ
  pub location : Text
  pub content_length : Text
  pub content_type : Text

-- The info and the files of a torrent: the name, the paths of UpvertedFiles, the paths of Files.
pub record Torrent : Type 0 where
  pub name : Text
  pub upverted : List (List Text)
  pub files : List Text

-- What the handler asks of the parts around it. `sources` and `torrent_error` are behind TorrentMap,
-- `list` is TorrentMap.List; `cache` and `dir_complete` are FileCacheMap; `total_files` and
-- `dir_file_count` are TorrentFileCountMap; `vault` is nil or GetWebseedURL, and `ask_vault` an HTTP
-- request by method and URL that follows no redirect; `stream` is what StatStream returns once it has
-- a torrent. `is_handler` and `can_flush` are the tests of StatWeb.Serve on the writer. The last four
-- are os.Open, the bencode encoder, the entity tag, and whether a header holds a time that is not
-- before the Unix epoch.
pub record Services : Type 1 where
  pub sources : Sources
  pub torrent_error : Text → Text
  pub torrent_of : Text → Torrent
  pub list : Result (List Text)
  pub cache : Text → Text → Result Text
  pub dir_complete : Text → Text → ℕ → Result Bool
  pub total_files : Text → Result ℕ
  pub dir_file_count : Text → Text → Result ℕ
  pub vault : Option (Text → Result Text)
  pub ask_vault : Text → Text → Result VaultReply
  pub stream : Text → Text → Option Text
  pub is_handler : Bool
  pub can_flush : Bool
  pub opens : Text → Bool
  pub encodes : Text → Bool
  pub etag : Text → Text → Text
  pub since_epoch : Text → Bool
