-- ===== src/Oauth/Store/Clients/Registration.antt =====
-- oauth/store.py: `get_client` after `register_client`.
use meme_mcp.Base.{
  ℕ, ◌≡◌, refl, ap, Option, none, some, [], ◌∷◌, arith, Text, text_eq_iff, text_eq_refl, Stamp,
  Option-cases, inl, inr,
}
use meme_mcp.Base.Table.Keyed.{find, at, find-update_where, find-cons, find-key}
use meme_mcp.Oauth.Schema.{ClientRow, ClientInfo, OauthStore, Primitives, RoundTrips}
use meme_mcp.Oauth.Store.Clients.{
  key, encrypted_secret, client_row, upsert, with_secret, register_client, get_client,
}

-- An empty secret is no secret.
abbrev pub secret_of : ClientInfo → Option Text
secret_of info = elim info.client_secret [
  | none ↦ none
  | some [] ↦ none
  | some (c ∷ cs) ↦ some (c ∷ cs)
]

abbrev pub last_use : Option ClientRow → Option Stamp
last_use none = none
last_use (some r) = r.last_used_at

module _ (k : Primitives) (laws : RoundTrips k) (info : ClientInfo) (nonce now : ℕ)
    (s : OauthStore) where
  found :
      find key info.client_id (register_client k info nonce now s).clients
      ≡ some (record (client_row k info nonce now) {
        last_used_at = last_use (find key info.client_id s.clients);
      })
  unfolding register_client
  found = elim (Option-cases (find key info.client_id s.clients)) [
    | inl e ↦ rw (e, register_client, find-cons key, text_eq_refl) refl
    | inr (r, e) ↦
        rw
          (
            e,
            register_client,
            find-update_where key (at key info.client_id) (upsert k (client_row k info nonce now))
                (λ x. refl) info.client_id s.clients,
            e,
          )
          (ground (
            arith,
            find-key key info.client_id s.clients e,
            text_eq_iff r.client_id info.client_id,
          ))
  ]

  read_back :
      (last : Option Stamp) (secret : Option Text)
      → info.client_secret ≡ secret
      → with_secret k (record (client_row k info nonce now) { last_used_at = last })
        ≡ record info { client_secret = secret_of info }
  unfolding with_secret encrypted_secret
  read_back last none e =
      ground (arith, e, laws.validate-dump (record info { client_secret = none }))
  read_back last (some []) e =
      ground (arith, e, laws.validate-dump (record info { client_secret = none }))
  read_back last (some (c ∷ cs)) e = ground (
    arith,
    e,
    laws.validate-dump (record info { client_secret = none }),
    laws.decrypt-encrypt nonce (c ∷ cs),
  )

  -- A client that was registered, for the first time or again, is read back with all its data, its
  -- secret decrypted (an empty secret counts as none); and its last use is kept.
  pub get_client-register_client :
      (get_client k info.client_id (register_client k info nonce now s)
        ≡ some (record info { client_secret = secret_of info }))
      × (last_use (find key info.client_id (register_client k info nonce now s).clients)
          ≡ last_use (find key info.client_id s.clients))
  unfolding get_client
  get_client-register_client = (
    rw (found, get_client)
        (ap some
          (read_back (last_use (find key info.client_id s.clients)) info.client_secret refl)),
    rw found refl,
  )
