-- ===== src/Diagnosis/Verdict.antt =====
-- When a torrent is called healthy.
use torrent_web_seeder.Prelude.{
  ℕ, ◌<◌, ◌≡◌, ◌≢◌, ◌↔◌, ◌⊎◌, inl, inr, refl, sym, ap, Bool, Bool-cases, true, false, ◌&&◌, List,
  [], ◌∷◌, ◌==◌, ltb, arith,
}
use torrent_web_seeder.Diagnosis.{TrackerLine, TorrentStats, Format, Line, said}
use torrent_web_seeder.Diagnosis.Report.{
  no_metadata, no_peers, no_seeders, no_data, healthy, print_diagnosis,
}

pub IsFirst : Line → List Line → Type 0
IsFirst l [] = ⊥
IsFirst l (k ∷ ks) = l ≡ k

-- The letter behind the bracket of a verdict.
letter : Line → ℕ
letter (said (a ∷ b ∷ t)) = b
letter l = 0

differ : (l : Line) → letter l ≢ b'O' → l ≢ healthy
unfolding letter
differ l d e = d (ap letter e)

no_metadata-≢-healthy : no_metadata ≢ healthy
unfolding letter
no_metadata-≢-healthy = differ no_metadata (λ e. omega (arith, e))

no_peers-≢-healthy : no_peers ≢ healthy
unfolding letter
no_peers-≢-healthy = differ no_peers (λ e. omega (arith, e))

no_seeders-≢-healthy : no_seeders ≢ healthy
unfolding letter
no_seeders-≢-healthy = differ no_seeders (λ e. omega (arith, e))

no_data-≢-healthy : no_data ≢ healthy
unfolding letter
no_data-≢-healthy = differ no_data (λ e. omega (arith, e))

-- A torrent is called healthy exactly when its metadata is known, some peer is, and either a seeder
-- is connected and useful data was read, or no seeder is connected and no peer is active. So a torrent
-- that reads nothing from anyone, as all its peers are idle, is called healthy.
pub healthy_exact :
    (F : Format) (got_info : Bool) (s : TorrentStats) (trackers : List TrackerLine)
    → IsFirst healthy (print_diagnosis F got_info s trackers) ↔ (
        (got_info ≡ true)
        × (0 < s.total_peers)
        × (((0 < s.connected_seeders) × (0 < s.bytes_read_useful_data))
            ⊎ ((s.connected_seeders ≡ 0) × (s.active_peers ≡ 0))))
unfolding print_diagnosis IsFirst
healthy_exact F false s trackers = (λ e. absurd (no_metadata-≢-healthy (sym e)), λ c. cc)
healthy_exact F true s trackers = elim (Bool-cases (s.total_peers == 0)) [
  | inl a ↦ rw (print_diagnosis, a) (λ e. absurd (no_peers-≢-healthy (sym e)), λ c. ground arith)
  | inr a ↦ elim (Bool-cases (s.connected_seeders == 0 && ltb 0 s.active_peers)) [
    | inl b ↦
        rw (print_diagnosis, a, b) (λ e. absurd (no_seeders-≢-healthy (sym e)), λ c. ground arith)
    | inr b ↦ elim (Bool-cases (s.bytes_read_useful_data == 0 && ltb 0 s.connected_seeders)) [
      | inl d ↦
          rw (print_diagnosis, a, b, d) (λ e. absurd (no_data-≢-healthy (sym e)), λ c. ground arith)
      | inr d ↦ rw (print_diagnosis, a, b, d) (λ e. ground arith, λ c. refl)
    ]
  ]
]
