-- ===== src/Examples/Fixtures.antt =====
-- Concrete primitives and stores. The hash is the identity, the encryption prepends its nonce, and
-- the codec writes each text with its codes marked and an end mark.
use meme_mcp.Base.{ℕ, zero, suc, ◌≡◌, refl, Option, none, some, Result, ok, err, [], ◌∷◌, Text}
use meme_mcp.Oauth.Schema.{
  RefreshRow, ClientInfo, OauthStore, empty_store, Primitives, RoundTrips, Draw,
}
use meme_mcp.Oauth.Store.Tokens.{Grant, access_row, refresh_row}
use meme_mcp.Oauth.Store.Rotation.{retire}

write_text : Text → Text → Text
write_text [] rest = 0 ∷ rest
write_text (c ∷ t) rest = 1 ∷ c ∷ write_text t rest

read_text : Text → Text × Text
read_text [] = ([], [])
read_text (zero ∷ rest) = ([], rest)
read_text (suc _ ∷ []) = ([], [])
read_text (suc _ ∷ c ∷ rest) = let (t, left) = read_text rest in (c ∷ t, left)

read_text-write_text : (t rest : Text) → read_text (write_text t rest) ≡ (t, rest)
unfolding read_text write_text
read_text-write_text [] rest = refl
read_text-write_text (c ∷ t) rest = rw (read_text-write_text t rest) refl

write_secret : Option Text → Text → Text
write_secret none rest = 0 ∷ rest
write_secret (some t) rest = 1 ∷ write_text t rest

read_secret : Text → Option Text × Text
read_secret [] = (none, [])
read_secret (zero ∷ rest) = (none, rest)
read_secret (suc _ ∷ rest) = let (t, left) = read_text rest in (some t, left)

read_secret-write_secret :
    (o : Option Text) (rest : Text) → read_secret (write_secret o rest) ≡ (o, rest)
unfolding read_secret write_secret
read_secret-write_secret none rest = refl
read_secret-write_secret (some t) rest = rw (read_text-write_text t rest) refl

write_expiry : Option ℕ → Text → Text
write_expiry none rest = 0 ∷ 0 ∷ rest
write_expiry (some n) rest = 1 ∷ n ∷ rest

read_expiry : Text → Option ℕ × Text
read_expiry (zero ∷ _ ∷ rest) = (none, rest)
read_expiry (suc _ ∷ n ∷ rest) = (some n, rest)
read_expiry [] = (none, [])
read_expiry (_ ∷ []) = (none, [])

read_expiry-write_expiry :
    (o : Option ℕ) (rest : Text) → read_expiry (write_expiry o rest) ≡ (o, rest)
unfolding read_expiry write_expiry
read_expiry-write_expiry none rest = refl
read_expiry-write_expiry (some n) rest = refl

pub write_client : ClientInfo → Text
write_client info =
    write_text info.client_id
      (write_secret info.client_secret (write_expiry info.client_secret_expires_at info.metadata))

pub read_client : Text → ClientInfo
read_client t =
    let (id, t1) = read_text t in
    let (secret, t2) = read_secret t1 in
    let (expires, rest) = read_expiry t2 in
    record {
      client_id = id;
      client_secret = secret;
      client_secret_expires_at = expires;
      metadata = rest;
    }

pub decipher : Text → Option Text
decipher [] = none
decipher (_ ∷ t) = some t

abbrev pub plain : Primitives
plain = record {
  hash = λ t. t;
  encrypt = λ nonce t. nonce ∷ t;
  decrypt = decipher;
  dump = write_client;
  validate = read_client;
}

read_client-write_client : (info : ClientInfo) → read_client (write_client info) ≡ info
unfolding read_client write_client
read_client-write_client info =
    rw
      (
        read_text-write_text info.client_id (
            write_secret info.client_secret
              (write_expiry info.client_secret_expires_at info.metadata)),
        read_secret-write_secret info.client_secret
            (write_expiry info.client_secret_expires_at info.metadata),
        read_expiry-write_expiry info.client_secret_expires_at info.metadata,
      )
      refl

pub plain-RoundTrips : RoundTrips plain
unfolding decipher
plain-RoundTrips = record {
  decrypt-encrypt = λ nonce t. refl;
  validate-dump = read_client-write_client;
}

abbrev pub draw : Text → ℕ → Draw
draw token now = record { token = token; now = now }

abbrev pub family : Text
family = 70 ∷ []

abbrev pub grant : Grant
grant = record {
  client_id = 67 ∷ [];
  principal = 80 ∷ [];
  scopes = (114 ∷ []) ∷ [];
  resource = none;
}

-- The row of the refresh token `2`, and the row after its rotation into `4` at time 10.
abbrev pub refresh : RefreshRow
refresh = refresh_row plain family none grant (draw (2 ∷ []) 0)

abbrev pub rotated : RefreshRow
rotated = retire (4 ∷ []) 10 refresh

-- A store with one family: the access token `1` and the refresh token `2`.
abbrev pub opened : OauthStore
opened = record empty_store {
  access_tokens = access_row plain family grant (draw (1 ∷ []) 0) ∷ [];
  refresh_tokens = refresh ∷ [];
}

abbrev pub rotated_away : OauthStore
rotated_away = record opened { refresh_tokens = rotated ∷ [] }

-- What a call gives, where it does not raise.
abbrev pub value : {A : Type 0} → A → Result A → A
value default (ok x) = x
value default (err e) = default
