-- ===== src/Client.antt =====
-- client/main.go: the command that shows the progress of each file of a torrent.
--
-- The calls of the status service are parameters: the paths of Files, Stat of a path, and the replies
-- that StatStream sends until an error ends it. `resize` is strutil.Resize, `size` humanize.Bytes.
use torrent_web_seeder.Prelude.{
  ℕ, ◌≤◌, Option, none, some, List, [], ◌∷◌, ◌++◌, ltb, if◌then◌else◌, length, map, Text, codes,
  Int64, Result, ok, err, All, arith,
}
use torrent_web_seeder.Cli.{Flag, string_flag, int_flag}
use torrent_web_seeder.Stat.{
  Status, initialization, seeding, idle, terminated, waiting_for_peers, restoring, backingup,
  StatReply,
}

unfoldable pub client_flags : List Flag
client_flags =
    string_flag (codes "host, H") (codes "hostname of the torrent web seeder") (codes "localhost")
      (codes "TORRENT_WEB_SEEDER_HOST")
    ∷ int_flag (codes "port, P") (codes "port of the torrent web seeder") 50051
        (codes "TORRENT_WEB_SEEDER_PORT")
    ∷ []

-- The loop for maxLen.
unfoldable pub longest : ℕ → List Text → ℕ
longest max_len [] = max_len
longest max_len (p ∷ ps) = longest (if ltb max_len (length p) then length p else max_len) ps

-- A progress bar: its total, the text before it, the text behind it, and the values it is set to.
pub record Bar : Type 0 where
  pub total : Int64
  pub title : Text
  pub label : Text
  pub values : List Int64

module _ (size : Int64 → Text) (resize : Text → ℕ → Text) where
  unfoldable pub seeding_label : StatReply → Text
  seeding_label s =
      codes "seeding (" ++ (size s.completed ++ (codes "/" ++ (size s.total ++ codes ")")))

  unfoldable pub label_of : Status → StatReply → Text
  unfolding seeding_label
  label_of initialization s = codes "init"
  label_of restoring s = codes "restoring"
  label_of seeding s = seeding_label s
  label_of idle s = seeding_label s
  label_of terminated s = codes "terminated"
  label_of waiting_for_peers s = []
  label_of backingup s = []

  -- renderFile: an error of StatStream sets no value.
  unfoldable pub render_file :
      (Text → Result StatReply) → (Text → List StatReply) → ℕ → Text → Result Bar
  unfolding label_of
  render_file get_stat stream max_len path = elim (get_stat path) [
    | err e ↦ err e
    | ok s ↦ ok (record {
      total = s.total;
      title = resize path max_len;
      label = label_of s.status s;
      values = map (λ r. r.completed) (stream path);
    })
  ]

  -- The loop over the files, which the first error ends; the bars stay.
  unfoldable pub render_files :
      (Text → Result StatReply) → (Text → List StatReply) → ℕ → List Text → List Bar × Option Text
  unfolding render_file
  render_files get_stat stream max_len [] = ([], none)
  render_files get_stat stream max_len (p ∷ ps) =
      let (bars, e) = render_files get_stat stream max_len ps in
      elim (render_file get_stat stream max_len p) [
        | err f ↦ ([], some f)
        | ok bar ↦ (bar ∷ bars, e)
      ]

  unfoldable pub render_progress :
      Result (List Text)
      → (Text → Result StatReply)
      → (Text → List StatReply)
      → List Bar × Option Text
  unfolding render_files longest
  render_progress (err e) get_stat stream = ([], some e)
  render_progress (ok paths) get_stat stream = render_files get_stat stream (longest 0 paths) paths

le-longest : (n : ℕ) (ps : List Text) → n ≤ longest n ps
unfolding longest
le-longest n [] = omega arith
le-longest n (p ∷ ps) = ground (arith, le-longest (if ltb n (length p) then length p else n) ps)

-- No title is cut.
longest-bounds : (n : ℕ) (ps : List Text) → All (λ p. length p ≤ longest n ps) ps
unfolding longest
longest-bounds n [] = tt
longest-bounds n (p ∷ ps) =
    let n' = (if ltb n (length p) then length p else n) in
    (ground (arith, le-longest n' ps), longest-bounds n' ps)
