-- ===== src/WebSeeder/Available/Exact.antt =====
-- When content is available without the torrent.
use torrent_web_seeder.Prelude.{
  Result, Result-cases, ok, err, Text-cases, ℕ, ◌<◌, ◌≡◌, refl, sym, ◌∙◌, ap, ◌⊎◌, ◌↔◌, Bool, true,
  false, inl, inr, Bool-cases, ltb, ltb→lt, lt→ltb, some, Option-cases, [], ◌∷◌, if◌then◌else◌,
  if_split, Text,
}
use torrent_web_seeder.TorrentMap.{TorrentMap}
use torrent_web_seeder.WebSeeder.Available.Streaming.{stream_stats-≢-not_found}
use torrent_web_seeder.WebSeeder.Calls.{Services, not_found_sent}
use torrent_web_seeder.WebSeeder.Available.{
  all_files_complete, in_vault, available_without_torrent, serve_stats, serve_done,
}

false-≢-true : ¬ (false ≡ true)
false-≢-true e = cc

ok-injective : {a b : Bool} → ok a ≡ ok b → a ≡ b
ok-injective e = cc

module _ (S : Services) (h : Text) where
  -- A number of files that is positive, all of them on record as complete.
  unfoldable pub AllComplete : Text → Result ℕ → Type 0
  AllComplete dir count = (n : ℕ) × (count ≡ ok n) × (0 < n) × (S.dir_complete h dir n ≡ ok true)

  -- The vault has a URL for the torrent.
  unfoldable pub InVault : Type 0
  InVault =
      (get : Text → Result Text) × (c : ℕ) × (url : Text) × (S.vault ≡ some get)
      × (get h ≡ ok (c ∷ url))

  -- The file itself is in the cache; or the files of the directory are; or the vault has them.
  unfoldable pub IsAvailable : Text → Type 0
  IsAvailable [] = AllComplete [] (S.total_files h) ⊎ InVault
  IsAvailable (c ∷ p) =
      ((d : ℕ) × (cp : Text) × (S.cache h (c ∷ p) ≡ ok (d ∷ cp)))
      ⊎ ((S.cache h (c ∷ p) ≡ ok []) × (AllComplete (c ∷ p) (S.dir_file_count h (c ∷ p)) ⊎ InVault))

  all_files_complete_if :
      (dir : Text) (count : Result ℕ)
      → AllComplete dir count
      → all_files_complete S h dir count ≡ true
  unfolding all_files_complete AllComplete
  all_files_complete_if dir count (n, e, positive, all) = rw (e, lt→ltb 0 n positive, all) refl

  all_files_complete_only :
      (dir : Text) (count : Result ℕ)
      → all_files_complete S h dir count ≡ true
      → AllComplete dir count
  unfolding all_files_complete AllComplete
  all_files_complete_only dir (err e) q = cc
  all_files_complete_only dir (ok n) q = elim (Bool-cases (ltb 0 n)) [
    | inr l ↦ absurd (false-≢-true (sym (rw l refl) ∙ q))
    | inl l ↦ elim (Result-cases (S.dir_complete h dir n)) [
      | inl (e, d) ↦ absurd (false-≢-true (sym (rw (l, d) refl) ∙ q))
      | inr (b, d) ↦ (n, refl, ltb→lt 0 n l, d ∙ ap ok (sym (rw (l, d) refl) ∙ q))
    ]
  ]

  in_vault_if : InVault → in_vault S h ≡ true
  unfolding in_vault InVault
  in_vault_if (get, c, url, v, e) = rw (in_vault, v, e) refl

  in_vault_only : in_vault S h ≡ true → InVault
  unfolding in_vault InVault
  in_vault_only q = elim (Option-cases S.vault) [
    | inl v ↦ absurd (false-≢-true (sym (rw (in_vault, v) refl) ∙ q))
    | inr (get, v) ↦ elim (Text-cases (get h)) [
      | inl (e, g) ↦ absurd (false-≢-true (sym (rw (in_vault, v, g) refl) ∙ q))
      | inr (inl g) ↦ absurd (false-≢-true (sym (rw (in_vault, v, g) refl) ∙ q))
      | inr (inr (c, url, g)) ↦ (get, c, url, v, g)
    ]
  ]

  either : Text → Result ℕ → Bool
  either dir count = if all_files_complete S h dir count then true else in_vault S h

  either_iff :
      (dir : Text) (count : Result ℕ)
      → (either dir count ≡ true) ↔ (AllComplete dir count ⊎ InVault)
  unfolding either
  either_iff dir count = (
    λ q. elim (Bool-cases (all_files_complete S h dir count)) [
      | inl all ↦ inl (all_files_complete_only dir count all)
      | inr some_left ↦ inr (in_vault_only (sym (rw some_left refl) ∙ q))
    ],
    elim [
      | inl all ↦ rw (all_files_complete_if dir count all) refl
      | inr v ↦
          if_split (λ b. b ≡ true) (all_files_complete S h dir count) (λ e. refl)
            (λ e. in_vault_if v)
    ],
  )

  IsAvailable-iff : (p : Text) → (available_without_torrent S h p ≡ ok true) ↔ IsAvailable p
  unfolding available_without_torrent IsAvailable
  IsAvailable-iff [] =
      let (only, if_so) = either_iff [] (S.total_files h) in
      (λ q. only (unfold either in ok-injective q), λ a. ap ok (unfold either in if_so a))
  IsAvailable-iff (c ∷ p) = elim (Text-cases (S.cache h (c ∷ p))) [
    | inl (e, q) ↦
        rw (available_without_torrent, q) (λ a. cc, elim [ inl (d, cp, a) ↦ cc | inr (a, v) ↦ cc ])
    | inr (inr (d, cp, q)) ↦ rw (available_without_torrent, q) (λ a. inl (d, cp, refl), λ a. refl)
    | inr (inl q) ↦
        let (only, if_so) = either_iff (c ∷ p) (S.dir_file_count h (c ∷ p)) in
        rw (available_without_torrent, q)
          (
            λ a. inr (refl, only (unfold either in ok-injective a)),
            elim [ inl (d, cp, a) ↦ cc | inr (a, v) ↦ ap ok (unfold either in if_so v) ],
          )
  ]

  done_iff :
      (p : Text) (a : Result Bool)
      → available_without_torrent S h p ≡ a
      → (serve_done S h p ≡ []) ↔ (a ≡ ok true)
  unfolding serve_done
  done_iff p (err e) q = rw (serve_done, q) (λ d. cc, λ d. cc)
  done_iff p (ok true) q = rw (serve_done, q) (λ d. refl, λ d. refl)
  done_iff p (ok false) q = rw (serve_done, q) (λ d. cc, λ d. cc)

  module _ (now : ℕ) (s : TorrentMap) where
    stats_iff :
        (p : Text) (a : Result Bool)
        → available_without_torrent S h p ≡ a
        → ((serve_stats S now s h p).1 ≡ some (not_found_sent ∷ [])) ↔ (a ≡ ok true)
    unfolding serve_stats
    stats_iff p (err e) q = rw (serve_stats, q) (λ d. cc, λ d. cc)
    stats_iff p (ok true) q = rw (serve_stats, q) (λ d. refl, λ d. refl)
    stats_iff p (ok false) q =
        rw (serve_stats, q) (λ d. absurd (stream_stats-≢-not_found S now s h p d), λ d. cc)

-- A request for `done` is answered with nothing but the default status, and a request for `stats`
-- with Not found, exactly when the content is available without the torrent: the file is in the
-- cache; or the cache does not fail and the number of files below the path is known and positive,
-- with all of them on record as complete; or else the vault has a URL for the torrent.
pub done_and_stats_exact :
    (S : Services) (now : ℕ) (s : TorrentMap) (h p : Text)
    → ((serve_done S h p ≡ []) ↔ IsAvailable S h p)
      × (((serve_stats S now s h p).1 ≡ some (not_found_sent ∷ [])) ↔ IsAvailable S h p)
done_and_stats_exact S now s h p =
    let a = available_without_torrent S h p in
    let (to, from) = IsAvailable-iff S h p in
    let (d, d') = done_iff S h p a refl in
    let (t, t') = stats_iff S h now s p a refl in
    ((λ q. to (d q), λ v. d' (from v)), (λ q. to (t q), λ v. t' (from v)))
