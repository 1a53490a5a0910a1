-- ===== src/Oauth/Store/Steps/Death.antt =====
-- oauth/store.py: families whose tokens are all revoked, along the calls.
use meme_mcp.Base.{
  ℕ, ◌≡◌, refl, ◌≢◌, Option, arith, Text, Result, ok, >>=-eq-ok, Option-cases, inl, inr,
}
use meme_mcp.Base.Table.{All-update_where, All-delete_where}
use meme_mcp.Oauth.Schema.{OauthStore, Primitives, Draw}
use meme_mcp.Oauth.Store.Clients.{register_client, mark_client_used}
use meme_mcp.Oauth.Store.Approvals.{record_approval, delete_approvals_for_principal}
use meme_mcp.Oauth.Store.Pending.{create_pending_request-inv, consume_pending_request}
use meme_mcp.Oauth.Store.Codes.{create_auth_code-inv, consume_auth_code}
use meme_mcp.Oauth.Store.Tokens.{
  Grant, StoredRefreshToken, revoke_access, revoke_refresh, issue_initial_tokens,
  load_refresh_token, fetch_usable_refresh,
}
use meme_mcp.Oauth.Store.Tokens.Mint.{issue_initial_tokens-inv}
use meme_mcp.Oauth.Store.Tokens.Families.{
  AccessDead, RefreshDead, IsDead, revoke_family-keeps, fetch_usable_refresh-keeps,
}
use meme_mcp.Oauth.Store.Rotation.Keeps.{rotate_refresh_token-keeps}
use meme_mcp.Oauth.Store.Revocation.{
  family_for, revoke_token, access_of, refresh_of, revoke_families_for_principal,
}
use meme_mcp.Oauth.Store.Gc.{stale_access, stale_refresh, gc_expired_tokens, gc_unused_clients}
use meme_mcp.Oauth.Store.Steps.{Step, Reach}

module _ {family : Text} where
  -- Calls that leave the tables of tokens alone.
  same_tokens :
      {s s' : OauthStore}
      → s'.access_tokens ≡ s.access_tokens
      → s'.refresh_tokens ≡ s.refresh_tokens
      → IsDead family s
      → IsDead family s'
  same_tokens a r dead = record { access = rw a dead.access; refresh = rw r dead.refresh }

  module _ (k : Primitives) {s : OauthStore} (dead : IsDead family s) where
    issue_initial_tokens-keeps :
        (g : Grant) (other : Text) (a d : Draw) (pair : Text × Text) {s' : OauthStore}
        → other ≢ family
        → issue_initial_tokens k g other a d s ≡ ok (pair, s')
        → IsDead family s'
    issue_initial_tokens-keeps g other a d pair ne h =
        rw (issue_initial_tokens-inv k g other a d h).3 (record {
          access = (λ e. absurd (ne e), dead.access);
          refresh = (λ e. absurd (ne e), dead.refresh);
        })

    load_refresh_token-keeps :
        (token : Text) (now later : ℕ) (loaded : Option StoredRefreshToken) {s' : OauthStore}
        → load_refresh_token k token now later s ≡ ok (loaded, s')
        → IsDead family s'
    unfolding load_refresh_token
    load_refresh_token-keeps token now later loaded h =
        let ((fetched, s1), f, rest) = >>=-eq-ok (fetch_usable_refresh k token now later s) _ h in
        rw (ap_state rest) (fetch_usable_refresh-keeps k token now later s f dead)
      where
        ap_state :
            {p q : Option StoredRefreshToken} {u v : OauthStore}
            → ◌≡◌ {A = Result (Option StoredRefreshToken × OauthStore)} (ok (p, u)) (ok (q, v))
            → v ≡ u
        ap_state e = cc

    revoke_token-keeps : (token : Text) (now : ℕ) → IsDead family (revoke_token k token now s)
    unfolding revoke_token
    revoke_token-keeps token now = elim (Option-cases (family_for (k.hash token) s)) [
      | inl miss ↦ rw (miss, revoke_token) dead
      | inr (other, hit) ↦ rw (hit, revoke_token) (revoke_family-keeps other now dead)
    ]

    revoke_families_for_principal-keeps :
        (principal : Text) (now : ℕ)
        → IsDead family (revoke_families_for_principal principal now s).1
    unfolding revoke_families_for_principal
    revoke_families_for_principal-keeps principal now = record {
      access =
          All-update_where (AccessDead family) (access_of principal) (revoke_access now)
            s.access_tokens (λ r p h e. refl) dead.access;
      refresh =
          All-update_where (RefreshDead family) (refresh_of principal) (revoke_refresh now)
            s.refresh_tokens (λ r p h e. refl) dead.refresh;
    }

    gc_expired_tokens-keeps : (now : ℕ) → IsDead family (gc_expired_tokens now s).1
    unfolding gc_expired_tokens
    gc_expired_tokens-keeps now = record {
      access = All-delete_where (AccessDead family) (stale_access now) s.access_tokens dead.access;
      refresh =
          All-delete_where (RefreshDead family) (stale_refresh now) s.refresh_tokens dead.refresh;
    }

    -- No call brings a dead family back.
    pub Step-IsDead : {s' : OauthStore} → Step k family s s' → IsDead family s'
    unfolding register_client mark_client_used record_approval delete_approvals_for_principal
        consume_pending_request consume_auth_code gc_unused_clients
    Step-IsDead (Step.registers info nonce now e) =
        rw e (same_tokens (ground arith) (ground arith) dead)
    Step-IsDead (Step.marks_used client now e) = rw e (same_tokens refl refl dead)
    Step-IsDead (Step.approves principal client scopes now e) = rw e (same_tokens refl refl dead)
    Step-IsDead (Step.forgets principal e) = rw e (same_tokens refl refl dead)
    Step-IsDead (Step.parks p d nonce h) =
        rw (create_pending_request-inv k p d s h).2 (same_tokens refl refl dead)
    Step-IsDead (Step.consumes_request now nonce e) = rw e (same_tokens refl refl dead)
    Step-IsDead (Step.creates_code g d code h) =
        rw (create_auth_code-inv k g d s h).2 (same_tokens refl refl dead)
    Step-IsDead (Step.consumes_code now code e) = rw e (same_tokens refl refl dead)
    Step-IsDead (Step.issues g other a d pair ne h) =
        issue_initial_tokens-keeps g other a d pair ne h
    Step-IsDead (Step.loads_refresh token now later loaded h) =
        load_refresh_token-keeps token now later loaded h
    Step-IsDead (Step.rotates token scopes now later a d pair h) =
        rotate_refresh_token-keeps k token scopes now later a d s h dead
    Step-IsDead (Step.revokes token now e) = rw e (revoke_token-keeps token now)
    Step-IsDead (Step.revokes_principal principal now e) =
        rw e (revoke_families_for_principal-keeps principal now)
    Step-IsDead (Step.collects_tokens now e) = rw e (gc_expired_tokens-keeps now)
    Step-IsDead (Step.collects_clients ttl now e) = rw e (same_tokens refl refl dead)

module _ (k : Primitives) {family : Text} {s : OauthStore} where
  -- Once every token of a family is revoked, no sequence of calls makes one usable again: whatever
  -- the calls, every later token of the family is revoked too.
  pub Reach-IsDead : {s' : OauthStore} → IsDead family s → Reach k family s s' → IsDead family s'
  Reach-IsDead dead Reach.here = dead
  Reach-IsDead dead (Reach.next r step) = Step-IsDead k (Reach-IsDead dead r) step
