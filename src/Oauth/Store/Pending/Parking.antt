-- ===== src/Oauth/Store/Pending/Parking.antt =====
-- oauth/store.py: `load_pending_request` and `consume_pending_request` after
-- `create_pending_request`.
use meme_mcp.Base.{
  ℕ, ◌+◌, ◌≡◌, refl, true, none, some, ◌∷◌, arith, ltb, Text, text_eq_refl, expired, All, ok,
  if◌then◌else◌,
}
use meme_mcp.Base.Table.{count_where}
use meme_mcp.Base.Table.Keyed.{find, find-cons}
use meme_mcp.Oauth.Scopes.{IsScope, split_scopes-join_scopes}
use meme_mcp.Oauth.Schema.{OauthStore, Primitives, Draw, pending_request_ttl}
use meme_mcp.Oauth.Store.Pending.{
  PendingRequest, key, pending_row, create_pending_request, create_pending_request-inv,
  load_pending_request, consume_pending_request,
}

module _ (k : Primitives) (p : PendingRequest) (d : Draw) (s : OauthStore) where
  abbrev with_request : OauthStore
  with_request = record s { pending_requests = pending_row k p d ∷ s.pending_requests }

  found : find key (k.hash d.token) with_request.pending_requests ≡ some (pending_row k p d)
  found = rw (find-cons key, text_eq_refl) refl

  load_pending_request-fresh :
      (now : ℕ)
      → All IsScope p.scopes
      → load_pending_request k now d.token with_request
        ≡ (if ltb now (d.now + pending_request_ttl) then some p else none)
  unfolding load_pending_request expired
  load_pending_request-fresh now words =
      ground (arith, found, split_scopes-join_scopes p.scopes words)

  consume_pending_request-fresh :
      (now : ℕ) → (consume_pending_request k now d.token with_request).0 ≡ true
  unfolding consume_pending_request count_where
  consume_pending_request-fresh now = rw text_eq_refl (ground arith)

module _ (k : Primitives) (p : PendingRequest) (d : Draw) (s s' : OauthStore) (nonce : Text) where
  -- A request that was parked is read back whole under its nonce until ten minutes are over, and not
  -- after that; in the store that holds it, it can be consumed. Scopes are words.
  pub load_pending_request-create_pending_request :
      create_pending_request k p d s ≡ ok (nonce, s')
      → All IsScope p.scopes
      → (nonce ≡ d.token)
        × ((now : ℕ)
            → load_pending_request k now nonce s'
              ≡ (if ltb now (d.now + pending_request_ttl) then some p else none))
        × ((now : ℕ) → (consume_pending_request k now nonce s').0 ≡ true)
  load_pending_request-create_pending_request h words =
      let (new, same, e) = create_pending_request-inv k p d s h in
      rw (same, e)
        (
          refl,
          λ now. load_pending_request-fresh k p d s now words,
          λ now. consume_pending_request-fresh k p d s now,
        )
