-- ===== src/VaultClient.antt =====
-- server/services/vault.go: whether the vault has a torrent.
--
-- An HTTP request by its URL, which comes to a status code, is a parameter, as is the decimal form of
-- the port. `get_webseed_url` is what is computed when the lazy map in front of it has no answer.
use torrent_web_seeder.Prelude.{
  ℕ, ◌≡◌, refl, true, Option, none, some, [], ◌++◌, ◌==◌, if◌then◌else◌, Text, codes, is_nil,
  Result, ok, err,
}
use torrent_web_seeder.WebSeeder.Calls.{Services}
use torrent_web_seeder.WebSeeder.Available.{in_vault}

pub record Vault : Type 0 where
  pub host : Text
  pub port : ℕ

-- NewVault: nil without a host.
unfoldable pub new_vault : Text → ℕ → Option Vault
new_vault host port = if is_nil host then none else some (record { host = host; port = port })

module _ (decimal : ℕ → Text) (do_request : Text → Result ℕ) where
  unfoldable pub ws_url : Vault → Text → Text
  ws_url v hash =
      codes "http://"
      ++ (v.host ++ (codes ":" ++ (decimal v.port ++ (codes "/webseed/" ++ (hash ++ codes "/")))))

  -- By the status code.
  unfoldable pub answer_url : Text → ℕ → Result Text
  answer_url url code =
      if code == 200
      then ok url
      else if code == 404
      then ok []
      else err (codes "unexpected status code: " ++ decimal code)

  unfoldable pub get_webseed_url : Vault → Text → Result Text
  unfolding ws_url answer_url
  get_webseed_url v hash = elim (do_request (ws_url v hash)) [
    | err e ↦ err e
    | ok code ↦ answer_url (ws_url v hash) code
  ]

  -- Behind the web seeder, a torrent is in the vault when its URL answers with 200.
  in_vault-get_webseed_url :
      (S : Services) (v : Vault) (h : Text)
      → do_request (ws_url v h) ≡ ok 200
      → in_vault (record S { vault = some (get_webseed_url v) }) h ≡ true
  unfolding in_vault get_webseed_url ws_url answer_url
  in_vault-get_webseed_url S v h e = rw (in_vault, get_webseed_url, e) refl
