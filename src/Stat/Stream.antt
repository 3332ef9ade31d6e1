-- ===== src/Stat/Stream.antt =====
-- The poller of `StatStream`: which replies it sends, and what a client makes of them.
use torrent_web_seeder.Prelude.{
  if_elim, ℕ, ◌≡◌, refl, sym, ◌∙◌, ap, Bool, true, false, not, ◌&&◌, ◌||◌, inl, inr, Bool-cases,
  Option, none, some, List, [], ◌∷◌, ◌++◌, ◌==◌, if◌then◌else◌, length,
}
use torrent_web_seeder.Stat.{
  Piece, StatReply, Status, initialization, seeding, idle, terminated, waiting_for_peers, restoring,
  backingup,
}
use torrent_web_seeder.Stat.Pieces.{diff, patch, NumberedFrom, patch-diff}

-- A reply is news if it is the first, or the completed bytes or the peers changed.
unfoldable pub is_news : Option StatReply → StatReply → Bool
is_news none rep = true
is_news (some prev) rep = not (rep.completed == prev.completed) || not (rep.peers == prev.peers)

unfoldable pub diff_pieces : Option StatReply → StatReply → List Piece
diff_pieces none rep = rep.pieces
diff_pieces (some prev) rep = diff rep.pieces prev.pieces

-- `diffRep`; the fields it leaves out are 0.
unfoldable pub diff_reply : Option StatReply → StatReply → StatReply
unfolding diff_pieces
diff_reply prev rep = record {
  total = rep.total;
  completed = rep.completed;
  peers = rep.peers;
  status = rep.status;
  pieces = diff_pieces prev rep;
  seeders = 0;
  leechers = 0;
}

unfoldable pub is_started : Status → Bool
is_started initialization = false
is_started restoring = false
is_started seeding = true
is_started idle = true
is_started terminated = true
is_started waiting_for_peers = true
is_started backingup = true

unfoldable pub is_last : StatReply → Bool
unfolding is_started
is_last rep = rep.total == rep.completed && is_started rep.status

-- `prev` is prevRep; `ended` says that the poller has sent nil on errCh.
pub record Poll : Type 0 where
  pub prev : Option StatReply
  pub sent : List StatReply
  pub ended : Bool

abbrev pub new_poll : Poll
new_poll = record { prev = none; sent = []; ended = false }

-- One round of the poller's loop, on a reply of Stat, when Send does not fail.
unfoldable pub poll_round : StatReply → Poll → Poll
unfolding is_news diff_reply is_last
poll_round rep w =
    if is_news w.prev rep
    then (record {
      prev = some rep;
      sent = w.sent ++ (diff_reply w.prev rep ∷ []);
      ended = is_last rep;
    })
    else w

-- The rounds up to the last reply.
unfoldable pub poll_rounds : List StatReply → Poll → Poll
unfolding poll_round
poll_rounds [] w = w
poll_rounds (rep ∷ reps) w =
    let rest = poll_rounds reps (poll_round rep w) in if w.ended then w else rest

-- A client takes the pieces of the first reply and patches them with those of each later one.
unfoldable pub receive : Option (List Piece) → StatReply → Option (List Piece)
receive none rep = some rep.pieces
receive (some view) rep = some (patch view rep.pieces)

unfoldable pub client : Option (List Piece) → List StatReply → Option (List Piece)
unfolding receive
client view [] = view
client view (rep ∷ reps) = client (receive view rep) reps

unfoldable pub pieces_of : Option StatReply → Option (List Piece)
pieces_of none = none
pieces_of (some rep) = some rep.pieces

-- The reply is of a torrent or file with `n` pieces.
abbrev pub HasPieces : ℕ → StatReply → Type 0
HasPieces n rep = (length rep.pieces ≡ n) × NumberedFrom 0 rep.pieces

abbrev pub AllHavePieces : ℕ → List StatReply → Type 0
AllHavePieces n [] = Unit {0}
AllHavePieces n (rep ∷ reps) = HasPieces n rep × AllHavePieces n reps

abbrev PrevHasPieces : ℕ → Option StatReply → Type 0
PrevHasPieces n none = Unit {0}
PrevHasPieces n (some rep) = HasPieces n rep

client_snoc :
    (view : Option (List Piece)) (reps : List StatReply) (rep : StatReply)
    → client view (reps ++ (rep ∷ [])) ≡ receive (client view reps) rep
unfolding client
client_snoc view [] rep = refl
client_snoc view (r ∷ reps) rep = client_snoc (receive view r) reps rep

receive-diff_reply :
    (n : ℕ) (prev : Option StatReply) (rep : StatReply)
    → PrevHasPieces n prev
    → HasPieces n rep
    → receive (pieces_of prev) (diff_reply prev rep) ≡ some rep.pieces
unfolding receive pieces_of diff_reply diff_pieces
receive-diff_reply n none rep h g = refl
receive-diff_reply n (some prev) rep (l, m) (k, o) =
    ap some (patch-diff rep.pieces prev.pieces (k ∙ sym l) o m)

record IsSynced (n : ℕ) (w : Poll) : Type 0 where
  same_size : PrevHasPieces n w.prev
  synced : client none w.sent ≡ pieces_of w.prev

poll_round-IsSynced :
    (n : ℕ) (rep : StatReply) (w : Poll)
    → HasPieces n rep
    → IsSynced n w
    → IsSynced n (poll_round rep w)
poll_round-IsSynced n rep w h s = elim (Bool-cases (is_news w.prev rep)) [
  | inl e ↦
      unfold poll_round in
      rw e (record {
        same_size = h;
        synced =
            client_snoc none w.sent (diff_reply w.prev rep)
            ∙ ap (λ v. receive v (diff_reply w.prev rep)) s.synced
            ∙ receive-diff_reply n w.prev rep s.same_size h
            ∙ unfold pieces_of in refl;
      })
  | inr e ↦ unfold poll_round in rw e s
]

poll_rounds-IsSynced :
    (n : ℕ) (reps : List StatReply) (w : Poll)
    → AllHavePieces n reps
    → IsSynced n w
    → IsSynced n (poll_rounds reps w)
unfolding poll_rounds
poll_rounds-IsSynced n [] w h s = s
poll_rounds-IsSynced n (rep ∷ reps) w (h, hs) s =
    if_elim (IsSynced n) w.ended s
      (poll_rounds-IsSynced n reps (poll_round rep w) hs (poll_round-IsSynced n rep w h s))

-- Whatever replies the poller sees, each of a torrent with the same number of pieces, numbered from
-- 0 on, a client that patches the pieces it has received holds those of the last reply the poller
-- took as news, and none before the first.
pub poll_rounds-client :
    (n : ℕ) (reps : List StatReply)
    → AllHavePieces n reps
    → client none (poll_rounds reps new_poll).sent ≡ pieces_of (poll_rounds reps new_poll).prev
poll_rounds-client n reps h =
    (poll_rounds-IsSynced n reps new_poll h
      (record { same_size = tt; synced = unfold client pieces_of in refl })).synced
