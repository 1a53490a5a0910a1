-- ===== src/Oauth/Store/Pending.antt =====
-- oauth/store.py, "pending authorization requests": parked under a nonce, used once.
pub mod Parking
use meme_mcp.Base.{
  ℕ, ◌+◌, ltb, Bool, ◌&&◌, not, ◌||◌, Option, none, some, List, [], ◌∷◌, codes, ◌≡◌, arith, Text,
  utc, is_some, expired, Result, ok, ◌>>=◌, if◌then◌else◌,
}
use meme_mcp.Base.Table.{update_where, count_where}
use meme_mcp.Base.Table.Keyed.{find, at, insert}
use meme_mcp.Oauth.Scopes.{split_scopes, join_scopes}
use meme_mcp.Oauth.Schema.{PendingRow, OauthStore, Primitives, Draw, pending_request_ttl}

pub record PendingRequest : Type 0 where
  pub client_id : Text
  pub redirect_uri : Text
  pub redirect_uri_provided_explicitly : Bool
  pub code_challenge : Text
  pub scopes : List Text
  pub resource : Option Text
  pub state : Option Text

-- `list(self.scopes) or ["meme:read"]`
unfoldable pub effective_scopes : PendingRequest → List Text
effective_scopes p = elim p.scopes [ [] ↦ codes "meme:read" ∷ [] | s ∷ ss ↦ s ∷ ss ]

abbrev pub key : PendingRow → Text
key r = r.nonce_hash

abbrev pub unconsumed : PendingRow → Bool
unconsumed r = not (is_some r.consumed_at)

abbrev pub request_of : PendingRow → PendingRequest
request_of r = record {
  client_id = r.client_id;
  redirect_uri = r.redirect_uri;
  redirect_uri_provided_explicitly = r.redirect_uri_provided_explicitly;
  code_challenge = r.code_challenge;
  scopes = split_scopes r.scopes;
  resource = r.resource;
  state = r.state;
}

module _ (k : Primitives) where
  abbrev pub pending_row : PendingRequest → Draw → PendingRow
  pending_row p d = record {
    nonce_hash = k.hash d.token;
    client_id = p.client_id;
    redirect_uri = p.redirect_uri;
    redirect_uri_provided_explicitly = p.redirect_uri_provided_explicitly;
    code_challenge = p.code_challenge;
    scopes = join_scopes p.scopes;
    resource = p.resource;
    state = p.state;
    created_at = utc d.now;
    expires_at = utc (d.now + pending_request_ttl);
    consumed_at = none;
  }

  unfoldable pub create_pending_request :
      PendingRequest → Draw → OauthStore → Result (Text × OauthStore)
  create_pending_request p d s = do
    rows ← insert key (pending_row p d) s.pending_requests
    ok (d.token, record s { pending_requests = rows })

  unfoldable pub load_pending_request : ℕ → Text → OauthStore → Option PendingRequest
  load_pending_request now nonce s = elim (find key (k.hash nonce) s.pending_requests) [
    | none ↦ none
    | some r ↦
        if is_some r.consumed_at || expired (some r.expires_at) now
        then none
        else some (request_of r)
  ]

  unfoldable pub consume_pending_request : ℕ → Text → OauthStore → Bool × OauthStore
  consume_pending_request now nonce s =
      let mine : PendingRow → Bool = λ r. at key (k.hash nonce) r && unconsumed r in
      (
        ltb 0 (count_where mine s.pending_requests),
        record s {
          pending_requests =
              update_where mine (λ r. record r { consumed_at = some (utc now) }) s.pending_requests;
        },
      )

  -- What a call that does not raise has done.
  pub create_pending_request-inv :
      (p : PendingRequest) (d : Draw) (s : OauthStore) {nonce : Text} {s' : OauthStore}
      → create_pending_request p d s ≡ ok (nonce, s')
      → (find key (k.hash d.token) s.pending_requests ≡ none)
        × (nonce ≡ d.token)
        × (s' ≡ record s { pending_requests = pending_row p d ∷ s.pending_requests })
  unfolding create_pending_request insert
  create_pending_request-inv p d s h = ground arith
