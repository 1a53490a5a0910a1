-- ===== src/Oauth/Store/Approvals/Coverage.antt =====
-- oauth/store.py: `has_approval` after the calls that change the approvals.
use meme_mcp.Base.{
  sorted_set, All-sorted_set, All-append, contains-sorted_set, subset_ext, ℕ, ◌≡◌, refl, true,
  false, ◌&&◌, some, List, ◌++◌, arith, Text, text_eq, text_eq_iff, subset, utc, All, Option-cases,
  Bool-cases, inl, inr, if◌then◌else◌,
}
use meme_mcp.Base.Table.{first_where, first_where-delete_where, first_where-delete_where-none}
use meme_mcp.Oauth.Scopes.{IsScope, join_scopes, split_scopes-join_scopes, split_scopes-IsScope}
use meme_mcp.Oauth.Schema.{ApprovalRow, OauthStore}
use meme_mcp.Oauth.Store.Approvals.{
  of, approved, record_approval, has_approval, delete_approvals_for_principal,
}

module _ (principal client : Text) (s : OauthStore) where
  approved-IsScope : All IsScope (approved principal client s)
  unfolding approved
  approved-IsScope = elim (Option-cases (first_where (of principal client) s.client_approvals)) [
    | inl e ↦ rw (e, approved) tt
    | inr (r, e) ↦ rw (e, approved) (split_scopes-IsScope r.scopes)
  ]

  -- The two columns of another pair.
  other_pair :
      (p c : Text) (r : ApprovalRow)
      → (text_eq principal p && text_eq client c) ≡ false
      → of p c r ≡ true
      → of principal client r ≡ false
  other_pair p c r ne h = ground (
    arith,
    text_eq_iff r.principal p,
    text_eq_iff r.client_id c,
    text_eq_iff r.principal principal,
    text_eq_iff r.client_id client,
    text_eq_iff principal p,
    text_eq_iff client c,
  )

  module _ (scopes : List Text) (now : ℕ) (p c : Text) where
    merged : List Text
    merged = approved principal client s ++ scopes

    found_same :
        (text_eq principal p && text_eq client c) ≡ true
        → first_where (of p c) (record_approval principal client scopes now s).client_approvals
          ≡ some (record {
            principal = principal;
            client_id = client;
            scopes = join_scopes (sorted_set (approved principal client s ++ scopes));
            approved_at = utc now;
          })
    unfolding record_approval first_where
    found_same e = rw e refl

    found_other :
        (text_eq principal p && text_eq client c) ≡ false
        → first_where (of p c) (record_approval principal client scopes now s).client_approvals
          ≡ first_where (of p c) s.client_approvals
    unfolding record_approval first_where
    found_other e =
        rw
          (
            e,
            first_where-delete_where (of principal client) (of p c) s.client_approvals
                (λ r h. other_pair p c r e h),
          )
          refl

    -- After an approval, the same friend and client are covered for exactly the scopes approved so far
    -- and the new ones; every other friend or client is covered as before. Scopes are words.
    pub has_approval-record_approval :
        (requested : List Text)
        → All IsScope scopes
        → has_approval p c requested (record_approval principal client scopes now s) ≡ (
            if text_eq principal p && text_eq client c
            then subset requested (approved principal client s ++ scopes)
            else has_approval p c requested s)
    unfolding has_approval merged
    has_approval-record_approval requested words =
        elim (Bool-cases (text_eq principal p && text_eq client c)) [
          | inl e ↦
              rw
                (
                  found_same e,
                  has_approval,
                  split_scopes-join_scopes (sorted_set merged) (
                      All-sorted_set IsScope merged (
                        All-append IsScope (approved principal client s) scopes approved-IsScope
                          words)),
                  e,
                )
                (subset_ext requested (sorted_set merged) merged
                  (λ x. contains-sorted_set x merged))
          | inr e ↦ rw (found_other e, has_approval, e) refl
        ]

module _ (principal : Text) (s : OauthStore) where
  -- After a friend's approvals are deleted the friend has none, and other friends keep theirs.
  pub has_approval-delete_approvals :
      (p c : Text) (requested : List Text)
      → has_approval p c requested (delete_approvals_for_principal principal s).1
        ≡ (if text_eq principal p then false else has_approval p c requested s)
  unfolding has_approval delete_approvals_for_principal
  has_approval-delete_approvals p c requested = elim (Bool-cases (text_eq principal p)) [
    | inl e ↦
        rw
          (
            first_where-delete_where-none (λ r. text_eq r.principal principal) (of p c)
                s.client_approvals
                (λ r h. ground (
                  arith,
                  text_eq_iff r.principal p,
                  text_eq_iff principal p,
                  text_eq_iff r.principal principal,
                )),
            has_approval,
            e,
          )
          refl
    | inr e ↦
        rw
          (
            first_where-delete_where (λ r. text_eq r.principal principal) (of p c)
                s.client_approvals
                (λ r h. ground (
                  arith,
                  text_eq_iff r.principal p,
                  text_eq_iff principal p,
                  text_eq_iff r.principal principal,
                )),
            has_approval,
            e,
          )
          refl
  ]
