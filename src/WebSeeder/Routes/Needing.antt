-- ===== src/WebSeeder/Routes/Needing.antt =====
-- The torrent that a request needs, and that it is nil.

use torrent_web_seeder.Prelude.{
  ◌↔◌, none-≢-some, ℕ, ◌≡◌, true, Bool-cases, refl, sym, ap, subst, inl, inr, Option, none, some,
  List, Text,
}
use torrent_web_seeder.TorrentMap.{Sources, missing, find_info, get_torrent, no_torrent, TorrentMap}
use torrent_web_seeder.TorrentMap.Running.{Answer-cases}
use torrent_web_seeder.WebSeeder.Request.{Request}
use torrent_web_seeder.WebSeeder.Calls.{Services, Call}
use torrent_web_seeder.WebSeeder.Routes.{
  Route, index, stats, done, torrent_index, source_torrent, file,
}
use torrent_web_seeder.WebSeeder.Routes.Loading.{NeedsTorrent, NeedsReader, NeedsStream}

-- The torrent of a hash is nil: the client runs, and both stores answer without an error and
-- without metadata.
pub IsUnknown : Sources → Text → Type 0
IsUnknown o h = (o.client_ready ≡ true) × (o.file_store h ≡ missing) × (o.torrent_store h ≡ missing)

find_info-missing :
    (o : Sources) (h : Text)
    → (find_info o h ≡ missing) ↔ ((o.file_store h ≡ missing) × (o.torrent_store h ≡ missing))
unfolding find_info
find_info-missing o h = elim (Answer-cases (o.file_store h)) [
  | inl e ↦ rw (find_info, e) (λ q. cc, λ (f, t). cc)
  | inr (inl e) ↦ rw (find_info, e) (λ q. (refl, q), λ (f, t). t)
  | inr (inr (m, e)) ↦ rw (find_info, e) (λ q. cc, λ (f, t). cc)
]

get_torrent-missing :
    (now : ℕ) (o : Sources) (h : Text) (s : TorrentMap)
    → ((get_torrent now o h s).1 ≡ no_torrent)
      ↔ ((o.client_ready ≡ true) × (find_info o h ≡ missing))
unfolding get_torrent
get_torrent-missing now o h s = elim (Bool-cases o.client_ready) [
  | inr no_client ↦ rw (get_torrent, no_client) (λ e. cc, λ (r, f). cc)
  | inl ready ↦ elim (Answer-cases (find_info o h)) [
    | inl e ↦ rw (get_torrent, ready, e) (λ q. cc, λ (r, f). cc)
    | inr (inl e) ↦ rw (get_torrent, ready, e) (λ q. (refl, refl), λ (r, f). refl)
    | inr (inr (m, e)) ↦ elim (Bool-cases (o.can_add m)) [
      | inl can ↦ rw (get_torrent, ready, e, can) (λ q. cc, λ (r, f). cc)
      | inr cannot ↦ rw (get_torrent, ready, e, cannot) (λ q. cc, λ (r, f). cc)
    ]
  ]
]

pub get_torrent-IsUnknown :
    (now : ℕ) (o : Sources) (h : Text) (s : TorrentMap)
    → ((get_torrent now o h s).1 ≡ no_torrent) ↔ IsUnknown o h
unfolding IsUnknown
get_torrent-IsUnknown now o h s =
    let got = get_torrent-missing now o h s in
    let info = find_info-missing o h in
    (
      λ q.
          let (ready, gone) = got.0 q in
          let (no_file, no_store) = info.0 gone in (ready, no_file, no_store),
      λ (ready, no_file, no_store). got.1 (ready, info.1 (no_file, no_store)),
    )

-- The torrent that a handler may need.
unfoldable pub torrent_named : Route → Option Text
torrent_named index = none
torrent_named (stats h p) = some h
torrent_named (done h p) = none
torrent_named (torrent_index h) = some h
torrent_named (source_torrent h) = some h
torrent_named (file h p) = some h

pub torrent_named_lem :
    (S : Services) (r : Request) (x : Route) (h : Text)
    → NeedsTorrent S r x h
    → torrent_named x ≡ some h
unfolding NeedsTorrent torrent_named
torrent_named_lem S r x h (inl e) = ap torrent_named e
torrent_named_lem S r x h (inr (inl e)) = ap torrent_named e
torrent_named_lem S r x h (inr (inr (inl (p, e, n)))) = ap torrent_named e
torrent_named_lem S r x h (inr (inr (inr (p, e, n)))) = ap torrent_named e

-- A torrent that is needed is nil.
unfoldable pub NeedsMissing : Services → Request → Route → Type 0
NeedsMissing S r x = (h : Text) × NeedsTorrent S r x h × IsUnknown S.sources h

module _ (S : Services) (now : ℕ) (r : Request) (s : TorrentMap) where
  file_needs : (h p h' : Text) → NeedsTorrent S r (file h p) h' → (h ≡ h') × NeedsReader S r h p
  unfolding NeedsTorrent
  file_needs h p h' (inl e) = cc
  file_needs h p h' (inr (inl e)) = cc
  file_needs h p h' (inr (inr (inr (p', e, n)))) = cc
  file_needs h p h' (inr (inr (inl (p', e, n)))) =
      let same : (h ≡ h') = cc in
      let path : (p ≡ p') = cc in
      (same, subst (λ k. NeedsReader S r k p) (sym same) (subst (NeedsReader S r h') (sym path) n))

  stats_needs : (h p h' : Text) → NeedsTorrent S r (stats h p) h' → (h ≡ h') × NeedsStream S h p
  unfolding NeedsTorrent
  stats_needs h p h' (inl e) = cc
  stats_needs h p h' (inr (inl e)) = cc
  stats_needs h p h' (inr (inr (inl (p', e, n)))) = cc
  stats_needs h p h' (inr (inr (inr (p', e, n)))) =
      let same : (h ≡ h') = cc in
      let path : (p ≡ p') = cc in
      (same, subst (λ k. NeedsStream S k p) (sym same) (subst (NeedsStream S h') (sym path) n))

  pub torrent_missing :
      (x : Route) (h : Text)
      → NeedsTorrent S r x h
      → ((h' : Text) → NeedsTorrent S r x h' → h ≡ h')
      → (NeedsMissing S r x) ↔ ((get_torrent now S.sources h s).1 ≡ no_torrent)
  unfolding NeedsMissing
  torrent_missing x h n only = (
    λ (h', needs, gone).
        (get_torrent-IsUnknown now S.sources h s).1
          (subst (IsUnknown S.sources) (sym (only h' needs)) gone),
    λ gone. (h, n, (get_torrent-IsUnknown now S.sources h s).0 gone),
  )

  pub file_missing :
      (h p : Text)
      → NeedsReader S r h p
      → (NeedsMissing S r (file h p)) ↔ ((get_torrent now S.sources h s).1 ≡ no_torrent)
  unfolding NeedsTorrent
  file_missing h p n =
      torrent_missing (file h p) h (inr (inr (inl (p, refl, n))))
        (λ h' needs. (file_needs h p h' needs).0)

  pub answered :
      (x : Route) (calls : List Call)
      → ((h : Text) → ¬ NeedsTorrent S r x h)
      → (some calls ≡ none) ↔ NeedsMissing S r x
  unfolding NeedsMissing
  answered x calls free =
      (λ e. absurd (none-≢-some (sym e)), λ (h, needs, gone). absurd (free h needs))

  pub file_answered :
      (h p : Text) (calls : List Call)
      → ¬ NeedsReader S r h p
      → (some calls ≡ none) ↔ NeedsMissing S r (file h p)
  file_answered h p calls free =
      answered (file h p) calls (λ h' needs. free (file_needs h p h' needs).1)

  pub stats_missing :
      (h p : Text)
      → NeedsStream S h p
      → (NeedsMissing S r (stats h p)) ↔ ((get_torrent now S.sources h s).1 ≡ no_torrent)
  unfolding NeedsTorrent
  stats_missing h p n =
      torrent_missing (stats h p) h (inr (inr (inr (p, refl, n))))
        (λ h' needs. (stats_needs h p h' needs).0)

  pub stats_answered :
      (h p : Text) (calls : List Call)
      → ¬ NeedsStream S h p
      → (some calls ≡ none) ↔ NeedsMissing S r (stats h p)
  stats_answered h p calls free =
      answered (stats h p) calls (λ h' needs. free (stats_needs h p h' needs).1)
