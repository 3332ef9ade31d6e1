-- ===== src/WebSeeder/Request.antt =====
-- What web_seeder.go reads of a request, and the info hash that it finds there.
use torrent_web_seeder.Prelude.{
  ℕ, Bool, true, false, ◌&&◌, ◌||◌, ◌==◌, leb, if◌then◌else◌, List, [], ◌∷◌, length, Text, text_eq,
  split, trim, is_nil,
}

-- `query` holds the keys of r.URL.Query(); a header that is absent reads as the empty text.
pub record Request : Type 0 where
  pub method : Text
  pub path : Text
  pub raw_query : Text
  pub query : List Text
  pub info_hash : Text  -- X-Info-Hash
  pub origin : Text
  pub if_none_match : Text
  pub if_modified_since : Text

unfoldable pub has_key : Text → List Text → Bool
has_key k [] = false
has_key k (q ∷ qs) = text_eq q k || has_key k qs

-- [0-9a-f]
unfoldable pub is_hex : ℕ → Bool
is_hex c = (leb b'0' c && leb c b'9') || (leb b'a' c && leb c b'f')

unfoldable pub all_hex : Text → Bool
unfolding is_hex
all_hex [] = true
all_hex (c ∷ s) = is_hex c && all_hex s

-- ^[0-9a-f]{5,40}$, which matches the whole text or nothing
unfoldable pub is_hash : Text → Bool
unfolding all_hex
is_hash s = all_hex s && (leb 5 (length s) && leb (length s) 40)

abbrev pub is_slash : ℕ → Bool
is_slash c = c == b'/'

-- strings.Split(strings.Trim(r.URL.Path, "/"), "/")
unfoldable pub path_parts : Text → List Text
path_parts path = split b'/' (trim is_slash path)

unfoldable pub first_hash : List Text → Text
unfolding is_hash
first_hash [] = []
first_hash (p ∷ ps) = if is_hash p then p else []

unfoldable pub get_hash : Request → Text
unfolding path_parts first_hash
get_hash r = if is_nil r.info_hash then first_hash (path_parts r.path) else r.info_hash
