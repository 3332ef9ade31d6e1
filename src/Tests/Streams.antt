-- ===== src/Tests/Streams.antt =====
-- server/services/stat.go: a torrent of two pieces whose second piece arrives.
use torrent_web_seeder.Prelude.{ℕ, ◌≡◌, refl, Bool, true, false, none, List, [], ◌∷◌, length, sub64}
use torrent_web_seeder.Stat.{StatReply, Torrent, torrent_stat}
use torrent_web_seeder.Stat.Pieces.{diff, patch, torrent_stat-patch}
use torrent_web_seeder.Stat.Stream.{
  new_poll, poll_rounds, client, pieces_of, AllHavePieces, poll_rounds-client,
}
use torrent_web_seeder.Stat.Handler.{
  Steps, here, then, waiting, leaving, returned, reporting, stopped, receive,
  reported_never_returns,
}

program : Unit {0}
unfolding torrent_stat diff poll_rounds client sub64
program = tt

abbrev torrent : ℕ → Bool → Torrent
torrent bytes second = record {
  bytes_completed = bytes;
  piece_states =
      record { priority = 1; complete = true; bytes = 4 }
      ∷ record { priority = 1; complete = second; bytes = 4 }
      ∷ [];
  active_peers = 3;
  connected_seeders = 1;
  total_length = 8;
  files = [];
}

torrent_stat-patch_example :
    patch
      (torrent_stat 1 (torrent 4 false)).pieces
      (diff (torrent_stat 1 (torrent 8 true)).pieces (torrent_stat 1 (torrent 4 false)).pieces)
    ≡ (torrent_stat 1 (torrent 8 true)).pieces
torrent_stat-patch_example = torrent_stat-patch 1 (torrent 4 false) (torrent 8 true) refl

abbrev replies : List StatReply
replies =
    torrent_stat 1 (torrent 4 false)
    ∷ torrent_stat 1 (torrent 4 false)
    ∷ torrent_stat 1 (torrent 8 true)
    ∷ torrent_stat 1 (torrent 8 true)
    ∷ []

-- Two replies are sent, the second with one piece, and the poller ends.
sent_twice :
    (length (poll_rounds replies new_poll).sent ≡ 2) × ((poll_rounds replies new_poll).ended ≡ true)
unfolding program
sent_twice = (refl, refl)

replies-AllHavePieces : AllHavePieces 2 replies
unfolding program
replies-AllHavePieces = (
  (refl, (refl, (refl, tt))),
  ((refl, (refl, (refl, tt))), ((refl, (refl, (refl, tt))), ((refl, (refl, (refl, tt))), tt))),
)

poll_rounds-client_example :
    client none (poll_rounds replies new_poll).sent ≡ pieces_of (poll_rounds replies new_poll).prev
poll_rounds-client_example = poll_rounds-client 2 replies replies-AllHavePieces

-- The handler takes the report and waits to send on `done`.
left : Steps waiting reporting leaving stopped
left = then receive here

reported_never_returns_example : ¬ (leaving ≡ returned)
reported_never_returns_example = reported_never_returns leaving stopped left
