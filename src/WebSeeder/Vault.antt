-- ===== src/WebSeeder/Vault.antt =====
-- redirectFromVault.
use torrent_web_seeder.Prelude.{
  Result, ok, err, Bool, true, false, ◌&&◌, ◌||◌, not, List, [], ◌∷◌, ◌++◌, ◌==◌, if◌then◌else◌,
  Text, codes, is_nil,
}
use torrent_web_seeder.WebSeeder.Request.{Request}
use torrent_web_seeder.WebSeeder.Calls.{
  Services, VaultReply, Call, header_set, status_written, redirected,
}

-- The calls made, `served`, and whether an error is returned.
pub record Attempt : Type 0 where
  pub calls : List Call
  pub served : Bool
  pub failed : Bool

abbrev not_served : Attempt
not_served = record { calls = []; served = false; failed = false }

abbrev attempt_failed : Attempt
attempt_failed = record { calls = []; served = false; failed = true }

-- if v := resp.Header.Get(k); v != "" { w.Header().Set(k, v) }
unfoldable pub copy_header : Text → Text → List Call
copy_header k v = if is_nil v then [] else header_set k v ∷ []

-- The status codes of the vault, one test behind the other.
unfoldable pub answer_vault : VaultReply → Attempt
answer_vault v =
    if v.status_code == 404
    then not_served
    else if (v.status_code == 302 || v.status_code == 307) && not (is_nil v.location)
    then (record {
      calls = redirected v.location v.status_code ∷ [];
      served = true;
      failed = false;
    })
    else if v.status_code == 200
    then (record {
      calls =
          copy_header (codes "Content-Length") v.content_length
          ++ (copy_header (codes "Content-Type") v.content_type
              ++ (header_set (codes "Accept-Ranges") (codes "bytes") ∷ status_written 200 ∷ []));
      served = true;
      failed = false;
    })
    else attempt_failed

unfoldable pub vault_method : Text → Text
vault_method m = if is_nil m then codes "GET" else m

unfoldable pub redirect_from_vault :
    Services → (Text → Result Text) → Request → Text → Text → Attempt
unfolding answer_vault vault_method
redirect_from_vault S get r h p = elim (get h) [
  | err e ↦ attempt_failed
  | ok url ↦
      if is_nil url then not_served else elim (S.ask_vault (vault_method r.method) (url ++ p)) [
        | err e ↦ attempt_failed
        | ok v ↦ answer_vault v
      ]
]
