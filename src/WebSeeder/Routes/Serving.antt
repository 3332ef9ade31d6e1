-- ===== src/WebSeeder/Routes/Serving.antt =====
-- A request for a file is answered once.
use mathlib.Core.Option.{some-injective}
use torrent_web_seeder.Prelude.{
  none-≢-some, Result, ok, err, ℕ, ◌≡◌, ◌≢◌, refl, ◌∙◌, ap, Option, none, some, List, [], ◌∷◌, ◌++◌,
  if◌then◌else◌, if_elim, if_split, arith, Text,
}
use torrent_web_seeder.TorrentMap.{TorrentMap, Outcome, get_torrent, failed, no_torrent, torrent}
use torrent_web_seeder.WebSeeder.Request.{Request}
use torrent_web_seeder.WebSeeder.Calls.{Services, Call, status_written}
use torrent_web_seeder.WebSeeder.Vault.{Attempt}
use torrent_web_seeder.WebSeeder.Files.{
  common_headers, opening_calls, validators, has_path, not_modified, serve_cached, torrent_failure,
  reader_calls, serve_from_torrent, try_vault, after_calls, find_content, serve_file,
}
use torrent_web_seeder.WebSeeder.Routes.Answers.{
  answers, answers-append, IsClean, try_vault-IsClean,
}

-- A handler that does not panic and answers once.
AnswersOnce : TorrentMap × Option (List Call) → Type 0
AnswersOnce out = (calls : List Call) × (out.1 ≡ some calls) × (answers calls ≡ 1)

after_calls-AnswersOnce :
    (S : Services) (calls : List Call) (out : TorrentMap × Option (List Call))
    → answers calls ≡ 0
    → AnswersOnce out
    → AnswersOnce (after_calls S calls out)
unfolding AnswersOnce after_calls
after_calls-AnswersOnce S calls (s, none) z (next, e, once) = absurd (none-≢-some e)
after_calls-AnswersOnce S calls (s, some given) z (next, e, once) = (
  calls ++ given,
  refl,
  omega (arith, answers-append calls given, ap answers (some-injective _ _ e)),
)

not_modified_once : answers (status_written 304 ∷ []) ≡ 1
unfolding answers
not_modified_once = refl

module _ (S : Services) where
  torrent_failure_once : (e : Text) → answers (torrent_failure S e ∷ []) ≡ 1
  unfolding answers torrent_failure
  torrent_failure_once e = ground arith

  reader_calls_once :
      (h p : Text) (o : Outcome)
      → o ≢ no_torrent
      → (calls : List Call) × (reader_calls S h p o ≡ some calls) × (answers calls ≡ 1)
  unfolding reader_calls answers validators
  reader_calls_once h p failed known =
      (torrent_failure S (S.torrent_error h) ∷ [], refl, torrent_failure_once (S.torrent_error h))
  reader_calls_once h p no_torrent known = absurd (known refl)
  reader_calls_once h p torrent known =
      (_, refl, if_elim (λ cs. answers cs ≡ 1) (has_path p (S.torrent_of h).files) refl refl)

  serve_cached_once : (cp tag : Text) → answers (serve_cached S cp tag) ≡ 1
  unfolding serve_cached answers validators
  serve_cached_once cp tag = ground arith

  common_headers_none : (r : Request) (p : Text) → answers (common_headers r p) ≡ 0
  unfolding common_headers answers
  common_headers_none r p = ground arith

  serve_from_torrent-AnswersOnce :
      (now : ℕ) (s : TorrentMap) (h p : Text)
      → (get_torrent now S.sources h s).1 ≢ no_torrent
      → AnswersOnce (serve_from_torrent S now s h p)
  unfolding serve_from_torrent AnswersOnce
  serve_from_torrent-AnswersOnce now s h p known =
      reader_calls_once h p (get_torrent now S.sources h s).1 known

  served-AnswersOnce :
      (s : TorrentMap) (calls : List Call) → answers calls ≡ 1 → AnswersOnce (s, some calls)
  unfolding AnswersOnce
  served-AnswersOnce s calls once = (calls, refl, once)

  opening_none : (r : Request) (h p : Text) → answers (opening_calls r h p) ≡ 0
  unfolding opening_calls answers
  opening_none r h p = omega (arith, common_headers_none r p)

  module _ (now : ℕ) (r : Request) (s : TorrentMap) (h p : Text)
      (known : (get_torrent now S.sources h s).1 ≢ no_torrent) where
    attempt-AnswersOnce :
        (a : Attempt)
        → IsClean a
        → AnswersOnce (
            if a.served
            then (s, some a.calls)
            else after_calls S a.calls (serve_from_torrent S now s h p))
    attempt-AnswersOnce a clean =
        if_split AnswersOnce a.served (λ e. served-AnswersOnce s a.calls (clean.once e))
          (λ e.
            after_calls-AnswersOnce S a.calls _
              (ap answers (clean.silent e) ∙ unfold answers in refl)
              (serve_from_torrent-AnswersOnce now s h p known))

    find_content-AnswersOnce :
        (found : Result Text) → AnswersOnce (find_content S now r s h p found)
    unfolding find_content
    find_content-AnswersOnce (err e) = served-AnswersOnce s _ (unfold answers in refl)
    find_content-AnswersOnce (ok (c ∷ cp)) =
        served-AnswersOnce s _ (serve_cached_once (c ∷ cp) (S.etag h p))
    find_content-AnswersOnce (ok []) =
        attempt-AnswersOnce (try_vault S S.vault r h p) (try_vault-IsClean S S.vault r h p)

    serve_file-AnswersOnce : AnswersOnce (serve_file S now r s h p)
    unfolding serve_file
    serve_file-AnswersOnce =
        if_elim AnswersOnce (not_modified S r (S.etag h p))
          (served-AnswersOnce s _ (
            omega (
              arith,
              answers-append (opening_calls r h p) (status_written 304 ∷ []),
              opening_none r h p,
              not_modified_once,
            )))
          (after_calls-AnswersOnce S (opening_calls r h p) _ (opening_none r h p)
            (find_content-AnswersOnce (S.cache h p)))

  -- A request for a file, of a torrent that a store knows, is handled without a panic and answered
  -- exactly once: by one status, error, redirect or content, whatever the file cache, the vault and
  -- the torrent come to.
  pub serve_file_once :
      (now : ℕ) (r : Request) (s : TorrentMap) (h p : Text)
      → (get_torrent now S.sources h s).1 ≢ no_torrent
      → (calls : List Call) × ((serve_file S now r s h p).1 ≡ some calls) × (answers calls ≡ 1)
  serve_file_once now r s h p known = unfold AnswersOnce in serve_file-AnswersOnce now r s h p known
