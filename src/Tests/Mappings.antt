-- ===== src/Tests/Mappings.antt =====
-- server/services/mmap.go: the files of a torrent are mapped on a disk where one call may fail.
use torrent_web_seeder.Prelude.{
  ◌≡◌, refl, false, none, some, List, [], ◌∷◌, ◌++◌, Text, codes, ok, join, get_elem?, text_eq,
  elem, lt64,
}
use torrent_web_seeder.Files.{FileInfo}
use torrent_web_seeder.FileCache.{get_path}
use torrent_web_seeder.Storage.Mapping.{Place, Calls, Process, Mapping, mmap_torrent}
use torrent_web_seeder.Storage.Mapped.{mmap_torrent_releases}
use torrent_web_seeder.Storage.Placed.{Fits, cached_is_mapped}
use torrent_web_seeder.Tests.Web.{disk, hash}

-- Every call succeeds on an empty file.
abbrev calls_that_work : Calls
calls_that_work = record {
  mkdir_all = none;
  open_file = none;
  stat_size = ok 0;
  truncate = none;
  map_region = none;
  unmap_region = none;
  close_file = none;
}

abbrev place : Place
place = record {
  calls = λ n. calls_that_work;
  dir_of = λ n. n;
  join_path = λ ps. join ps (codes "/");
  sha1_hex = λ p. codes "ab" ++ p;
  quote = λ t. t;
  best_name = codes "N";
  best_path = λ f. f.path;
  to_safe_file_path = λ ps. ok (join ps (codes "/"));
  display_path = λ f. join f.path (codes "/");
}

-- No file can be mapped into memory.
abbrev cramped : Place
cramped = record place {
  calls = λ n. record calls_that_work { map_region = some (codes "no memory") };
}

abbrev files : List FileInfo
files =
    record { path = codes "a" ∷ []; length = 0 }
    ∷ record { path = codes "d" ∷ codes "b" ∷ []; length = 5 }
    ∷ []

abbrev process : Process
process = record { next = 0; is_open = λ k. false; is_mapped = λ k. false }

abbrev error : Text
error = codes "file d/b: error mapping region: no memory"

mmap_torrent_releases_example :
    (mmap_torrent cramped files (codes "/data") process).0.is_open 1 ≡ false
unfolding mmap_torrent join lt64
mmap_torrent_releases_example =
    mmap_torrent_releases cramped files (codes "/data") process error (λ k l. refl) refl 1

abbrev mapped : List Mapping
mapped =
    record {
      file = 0;
      name = codes "/data/0123456789/content/ab/abN/a";
      file_size = 0;
      region = none;
    }
    ∷ record {
      file = 1;
      name = codes "/data/0123456789/content/ab/abN/d/b";
      file_size = 5;
      region = some 5;
    }
    ∷ []

cached_is_mapped_example :
    (m : Mapping) × (get_elem? mapped 1 ≡ some m)
    × Fits (codes "/data/0123456789/content/ab/abN/d/b") 5 m
unfolding mmap_torrent join get_path elem text_eq lt64
cached_is_mapped_example =
    cached_is_mapped place disk refl refl hash (codes "/data/0123456789") (codes "N/d/b") files
      process mapped 1 (record { path = codes "d" ∷ codes "b" ∷ []; length = 5 }) b'/'
      (codes "data/0123456789/content/ab/abN/d/b") refl refl refl refl refl
