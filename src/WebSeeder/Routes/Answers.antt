-- ===== src/WebSeeder/Routes/Answers.antt =====
-- How often the calls of a handler answer a request.
use torrent_web_seeder.Prelude.{
  Result, Result-cases, ℕ, ◌+◌, ◌≡◌, refl, ◌∙◌, true, false, not, ◌&&◌, ◌||◌, inl, inr, Bool-cases,
  Option, none, some, List, [], ◌∷◌, ◌++◌, ◌==◌, if_elim, arith, Text, codes, is_nil,
}
use torrent_web_seeder.WebSeeder.Request.{Request}
use torrent_web_seeder.WebSeeder.Calls.{
  Services, VaultReply, Call, file_touched, header_set, status_written, error_sent, not_found_sent,
  redirected, content_served, heading, link, metainfo_encoded, stats_streamed,
}
use torrent_web_seeder.WebSeeder.Vault.{
  Attempt, copy_header, vault_method, answer_vault, redirect_from_vault,
}
use torrent_web_seeder.WebSeeder.Files.{try_vault}

-- The calls that write a status and a body.
abbrev pub is_answer : Call → ℕ
is_answer (file_touched h) = 0
is_answer (header_set k v) = 0
is_answer (status_written n) = 1
is_answer (error_sent e n) = 1
is_answer not_found_sent = 1
is_answer (redirected loc n) = 1
is_answer (content_served c) = 1
is_answer (heading h) = 0
is_answer (link path query) = 0
is_answer (metainfo_encoded h) = 1
is_answer (stats_streamed h p) = 1

unfoldable pub answers : List Call → ℕ
answers [] = 0
answers (c ∷ cs) = is_answer c + answers cs

pub answers-append : (xs ys : List Call) → answers (xs ++ ys) ≡ answers xs + answers ys
unfolding answers
answers-append [] ys = omega arith
answers-append (x ∷ xs) ys = omega (arith, answers-append xs ys)

answers-copy_header : (k v : Text) → answers (copy_header k v) ≡ 0
unfolding answers copy_header
answers-copy_header k [] = refl
answers-copy_header k (c ∷ v) = refl

-- An attempt that serves answers once; one that does not has made no call.
pub record IsClean (a : Attempt) : Type 0 where
  pub once : a.served ≡ true → answers a.calls ≡ 1
  pub silent : a.served ≡ false → a.calls ≡ []

head_answer : (v : VaultReply) → List Call
head_answer v =
    copy_header (codes "Content-Length") v.content_length
    ++ (copy_header (codes "Content-Type") v.content_type
        ++ (header_set (codes "Accept-Ranges") (codes "bytes") ∷ status_written 200 ∷ []))

answers-head_answer : (v : VaultReply) → answers (head_answer v) ≡ 1
unfolding head_answer
answers-head_answer v =
    answers-append (copy_header (codes "Content-Length") v.content_length) _
    ∙ (λ i.
        answers-copy_header (codes "Content-Length") v.content_length i
        + answers-append (copy_header (codes "Content-Type") v.content_type)
            (header_set (codes "Accept-Ranges") (codes "bytes") ∷ status_written 200 ∷ []) i)
    ∙ (λ i.
        0
        + (answers-copy_header (codes "Content-Type") v.content_type i
            + answers
                (header_set (codes "Accept-Ranges") (codes "bytes") ∷ status_written 200 ∷ [])))
    ∙ unfold answers in refl

answer_vault-IsClean : (v : VaultReply) → IsClean (answer_vault v)
unfolding answer_vault head_answer
answer_vault-IsClean v =
    if_elim IsClean (v.status_code == 404) (record { once = λ h. cc; silent = λ h. refl })
      (if_elim IsClean ((v.status_code == 302 || v.status_code == 307) && not (is_nil v.location))
        (record { once = λ h. unfold answers in refl; silent = λ h. cc })
        (if_elim IsClean (v.status_code == 200)
          (record { once = λ h. answers-head_answer v; silent = λ h. cc })
          (record { once = λ h. cc; silent = λ h. refl })))

failed_attempt-IsClean : IsClean (record { calls = []; served = false; failed = true })
failed_attempt-IsClean = record { once = λ h. cc; silent = λ h. refl }

redirect_from_vault-IsClean :
    (S : Services) (get : Text → Result Text) (r : Request) (h p : Text)
    → IsClean (redirect_from_vault S get r h p)
unfolding redirect_from_vault
redirect_from_vault-IsClean S get r h p = elim (Result-cases (get h)) [
  | inl (e, q) ↦ rw (redirect_from_vault, q) failed_attempt-IsClean
  | inr (url, q) ↦ elim (Bool-cases (is_nil url)) [
    | inl n ↦ rw (redirect_from_vault, q) (rw n (record { once = λ h. cc; silent = λ h. refl }))
    | inr n ↦ elim (Result-cases (S.ask_vault (vault_method r.method) (url ++ p))) [
      | inl (e, a) ↦ rw (redirect_from_vault, q, n) (rw a failed_attempt-IsClean)
      | inr (v, a) ↦ rw (redirect_from_vault, q, n) (rw a (answer_vault-IsClean v))
    ]
  ]
]

pub try_vault-IsClean :
    (S : Services) (vault : Option (Text → Result Text)) (r : Request) (h p : Text)
    → IsClean (try_vault S vault r h p)
unfolding try_vault
try_vault-IsClean S none r h p = record { once = λ q. cc; silent = λ q. refl }
try_vault-IsClean S (some get) r h p = redirect_from_vault-IsClean S get r h p
