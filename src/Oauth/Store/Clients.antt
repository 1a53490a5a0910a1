-- ===== src/Oauth/Store/Clients.antt =====
-- oauth/store.py, "clients": registration, lookup, and the stamp of the last use.
pub mod Registration
use mathlib.Core.Option
use meme_mcp.Base.{
  ℕ, ◌≡◌, refl, Option, none, some, List, [], ◌∷◌, arith, Text, text_eq, text_eq_refl, Stamp, utc,
  if◌then◌else◌,
}
use meme_mcp.Base.Table.{update_where}
use meme_mcp.Base.Table.Keyed.{find, at, find-update_where, find-cons}
use meme_mcp.Oauth.Schema.{ClientRow, ClientInfo, OauthStore, Primitives, RoundTrips, empty_store}

abbrev pub key : ClientRow → Text
key r = r.client_id

module _ (k : Primitives) where
  -- `self.encrypt_secret(secret) if secret else None`
  unfoldable pub encrypted_secret : ℕ → Option Text → Option Text
  encrypted_secret nonce none = none
  encrypted_secret nonce (some []) = none
  encrypted_secret nonce (some (c ∷ cs)) = some (k.encrypt nonce (c ∷ cs))

  abbrev client_row : ClientInfo → ℕ → ℕ → ClientRow
  client_row info nonce now = record {
    client_id = info.client_id;
    client_info = k.dump (record info { client_secret = none });
    client_secret_encrypted = encrypted_secret nonce info.client_secret;
    client_secret_expires_at = info.client_secret_expires_at;
    registered_at = utc now;
    last_used_at = none;
  }

  -- `ON CONFLICT(client_id) DO UPDATE SET …`: all but `last_used_at`.
  abbrev upsert : ClientRow → ClientRow → ClientRow
  upsert excluded r = record excluded { client_id = r.client_id; last_used_at = r.last_used_at }

  unfoldable pub register_client : ClientInfo → ℕ → ℕ → OauthStore → OauthStore
  unfolding encrypted_secret
  register_client info nonce now s =
      let row = client_row info nonce now in
      elim (find key info.client_id s.clients) [
        | none ↦ record s { clients = row ∷ s.clients }
        | some _ ↦ record s {
          clients = update_where (at key info.client_id) (upsert row) s.clients;
        }
      ]

  -- The stored client with its secret decrypted; a column that does not decrypt gives no secret.
  with_secret : ClientRow → ClientInfo
  with_secret r = elim r.client_secret_encrypted [
    | none ↦ k.validate r.client_info
    | some c ↦ record (k.validate r.client_info) { client_secret = k.decrypt c }
  ]

  unfoldable pub get_client : Text → OauthStore → Option ClientInfo
  unfolding with_secret
  get_client client_id s = Option.map with_secret (find key client_id s.clients)

unfoldable pub mark_client_used : Text → ℕ → OauthStore → OauthStore
mark_client_used client_id now s = record s {
  clients =
      update_where (at key client_id) (λ r. record r { last_used_at = some (utc now) }) s.clients;
}
