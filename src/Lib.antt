-- ===== src/Lib.antt =====
-- torrent-web-seeder: a server that downloads torrents and serves their files over HTTP, within a
-- disk budget per torrent, and reports on the download over gRPC.
--
-- The torrent client (anacrolix/torrent) writes pieces through a storage that maps each file of a
-- torrent into memory. When a piece is complete, the storage records that in a completion store,
-- adds it to an LRU tracker, and evicts the pieces that the tracker names. Eviction records the
-- piece as missing, invalidates the files it belongs to, punches holes into the files, drops their
-- pages and queues the piece for verification. The completion store asks in turn which files are
-- complete, and the tracker spares their pieces as long as others are left. The status service
-- turns the client's state of a torrent into replies, and streams their differences. The web seeder
-- answers a request for a file from the cache on disk, from the vault or from the torrent, in this
-- order, and says of a path whether its files are all there.
--
-- Prelude          numbers, lists, association lists, byte strings and 64-bit words.
-- PieceLru         server/services/piece_lru.go: pieceEntry, PieceLRU and each of its methods
--                  (Touch is `touch`, Add is `add`, computeEvictions is `compute_evictions`).
-- Files            the range of pieces of each file, which server/services/piece_completion.go
--                  computes in three methods and mmap.go in uncompleteAffectedFiles.
-- Completions      server/services/piece_completion.go, the type completions: Complete,
--                  Uncomplete, IsPieceInCompletedFile, GetCompletedFiles.
-- PieceCompletion  server/services/piece_completion.go, the type pieceCompletion: what
--                  NewPieceCompletion recovers, Get, Set (`set_piece`), UncompleteFiles,
--                  CompleteFile and Close, over the database of PieceCompletion.Tables; how the
--                  database is opened, and the goroutine that polls (Polling). Its
--                  `piece_store` is the completion store of Storage.
-- Regions          server/services/mmap.go: pieceFileRegions and madviseSpanRange.
-- Storage          server/services/mmap.go: MarkComplete, MarkNotComplete, evictPiece,
--                  evictOverBudget, uncompleteAffectedFiles and the ticker of the sweep;
--                  OpenTorrent and recoverLRU (Opening), ReadAt and Close (Reading), mMapTorrent
--                  and mmapFile (Mapping).
-- Stat             server/services/stat.go: torrentStat, fileStat, statUncached, Files. Its
--                  children model diff (Pieces), the replies that StatStream sends (Stream) and
--                  the channels between its two goroutines (Handler).
-- TorrentMap       server/services/torrent_map.go: Touch, Get and the goroutine of a timer, as steps
--                  at times; the goroutine that measures a torrent and List (Monitor).
-- Distribution     server/services/common.go: DistributeByHash, and GetDir (Location).
-- FileStore        server/services/file_store_map.go: loadFiles, Get (`get_metainfo`) and List
--                  (`list_hashes`), with what sync.Once keeps.
-- PieceReader      server/services/piece_reader.go: Seek.
-- VaultClient      server/services/vault.go: NewVault and getWebseedURL.
-- StatWeb          server/services/stat_web.go: Ping, Send and the front of Serve.
-- FileCache        server/services/file_cache_map.go: Get (`get_cached_path`), get (`get_path`) and
--                  IsDirComplete.
-- FileCount        server/services/torrent_file_count_map.go: GetInfo (`get_cached_info`), getInfo,
--                  TotalFiles, DirFileCount.
-- WebSeeder        server/services/web_seeder.go: ServeHTTP (`serve_http`) and every handler behind
--                  it. Its children model the request and the info hash in it (Request), the calls
--                  on a response writer (Calls), availableWithoutTorrent, serveStats and serveDone
--                  (Available), redirectFromVault (Vault), serveFile and getTorrentReader (Files),
--                  the index pages (Pages) and the choice of a handler (Routes).
-- Diagnosis        server/diagnose.go: extractTrackerLines, printDiagnosis, formatBytes, and the phases of
--                  runDiagnose (Phases).
-- TorrentClient    server/services/torrent_client.go: the flags (Flags), NewTorrentClient and the
--                  configuration that get builds; Get, Close and the goroutine of an idle client as
--                  steps (Life); the dials that are counted (Dialing).
-- TorrentStore     server/services/torrent_store.go, torrent_store_map.go and touch_map.go: Get
--                  (`get_store`), a pull and a touch.
-- StatGrpc, Web    server/services/stat_grpc.go and web.go: flags, constructors and Serve.
-- Cli, Configure   server/configure.go: the flags of the command line, `configure` and `run`.
-- Client           client/main.go: the bars that the command line client shows.
-- Tests            runs on small inputs.
--
-- An int or int64 is its bit pattern, a number below 2^64 (Prelude.Word), with the wrap-around
-- written out; an index that only counts up from 0 is a plain number. A method that holds a mutex
-- is one step on the state, so an interleaving of threads is a list of steps. A run-time panic is
-- `none`. Maps are association lists. No definition needs fuel: every loop runs over a list
-- or a count.
--
-- What the source does not hold is a parameter: the completion store of the storage
-- (Storage.Store.CompletionStore), with what a write and a read of it are relied on for, the SQLite
-- database of PieceCompletion.Tables, the metadata of a torrent (Files.Info) with the offsets and
-- sizes of its pieces, what the client says of a torrent (Stat.Torrent), what the client and the
-- stores of torrents answer (TorrentMap.Sources), the sort and the hash that distribute torrents over
-- directories, the disk, the database and the lazy map of the file cache (FileCache.Disk), the stores of the file
-- counts (FileCount.InfoStores), and what the web seeder asks of the parts around it
-- (WebSeeder.Calls.Services): WebSeeder.Available.OnRecord puts the file cache and the file counts
-- in the place of those parameters. Text is ASCII where it is trimmed or searched.
--
-- What the client, the timers and the parsers come to in a diagnosis is a parameter too
-- (Diagnosis.Phases.World), and so are the system calls behind a mapping (Storage.Mapping.Place), the
-- values of the flags (Cli.Context) and the services of webtor-io/common-services.
--
-- Not modelled: the effects of the system calls that punch holes and drop pages, the outcome of which
-- is only logged; the listeners, the recovery from a panic of a request and the loops of the HTTP and
-- gRPC servers, which are libraries; the gauges of connections; and the generated protocol code
-- apart from the messages of the status service.
pub mod Prelude
pub mod PieceLru
pub mod Files
pub mod Completions
pub mod PieceCompletion
pub mod Regions
pub mod Cli
pub mod StatGrpc
pub mod TorrentStore
pub mod Web
pub mod Client
pub mod Configure
pub mod TorrentClient
pub mod Storage
pub mod Stat
pub mod StatWeb
pub mod TorrentMap
pub mod FileStore
pub mod VaultClient
pub mod PieceReader
pub mod Diagnosis
pub mod FileCache
pub mod FileCount
pub mod WebSeeder
pub mod Distribution
mod Tests
