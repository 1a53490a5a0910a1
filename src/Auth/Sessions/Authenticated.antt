-- ===== src/Auth/Sessions/Authenticated.antt =====
-- auth/session.py and auth/depends.py: who gets in.
use meme_mcp.Base.{
  ℕ, ◌≡◌, refl, ap, ◌⊎◌, inl, inr, true, Option, none, some, [], ◌∷◌, ◌++◌, arith, codes, Text,
  is_empty, strip, Result, ok, err, unauthorized, ◌==◌, ==_iff, forbidden_not_allowlisted,
  if◌then◌else◌, Bool-cases, Option-cases,
}
use meme_mcp.Base.Json.{Dict}
use meme_mcp.Web.Csrf.{filled}
use meme_mcp.Web.Csrf.Tokens.{filled-inv}
use meme_mcp.Web.SafeNext.{remove_prefix}
use meme_mcp.Auth.Authorization.{normalize_principal, is_authorized}
use meme_mcp.Auth.Pat.{Capability, PatStore, verify_pat}
use meme_mcp.Auth.Sessions.{
  Friend, Doors, default_capability, judge_verified, require_pat, judge_session, session_login,
  friend_from_header, friend_from_request_or_header,
}

remove_prefix-some : (p s rest : Text) → remove_prefix p s ≡ some rest → s ≡ p ++ rest
unfolding remove_prefix
remove_prefix-some [] s rest h = cc
remove_prefix-some (c ∷ p) [] rest h = absurd (cc)
remove_prefix-some (c ∷ p) (x ∷ s) rest h = elim (Bool-cases (c == x)) [
  | inl e ↦
      let same : c ≡ x = (==_iff c x).0 e in
      let k : remove_prefix p s ≡ some rest = rw e at h in
      rw same (ap (λ t. x ∷ t) (remove_prefix-some p s rest k))
  | inr e ↦ let k : none ≡ some rest = rw e at h in absurd (cc)
]

filled-none : (o : Option Text) → filled o ≡ none → (o ≡ none) ⊎ (o ≡ some [])
unfolding is_empty
filled-none none h = inl refl
filled-none (some []) h = inr refl
filled-none (some (c ∷ t)) h = absurd (cc)

module _ (d : Doors) where
  -- What lets a friend in: a personal token that verifies, or the session.
  pub data Entry (session : Dict) (authorization : Option Text) (now : ℕ) (store : PatStore)
      (f : Friend) : Type 0 where
    by_token :
        (rest : Text)
        → authorization ≡ some (codes "Bearer " ++ rest)
        → (verify_pat d.hash (strip rest) now store).0 ≡ some (f.principal, f.capability)
        → is_authorized f.principal d.allowlist d.pins ≡ true
        → Entry session authorization now store f
    by_session :
        (authorization ≡ none) ⊎ (authorization ≡ some [])
        → session_login d session ≡ some f.principal
        → is_authorized f.principal d.web_allowlist d.pins ≡ true
        → Entry session authorization now store f

  judge_verified-ok :
      (v : Option (Text × Capability)) (f : Friend)
      → judge_verified d v ≡ ok f
      → (v ≡ some (f.principal, f.capability))
        × (is_authorized f.principal d.allowlist d.pins ≡ true)
  unfolding judge_verified
  judge_verified-ok none f h = absurd (cc)
  judge_verified-ok (some (principal, capability)) f h =
      elim (Bool-cases (is_authorized principal d.allowlist d.pins)) [
        | inl e ↦
            let k : ok record { principal = principal; capability = capability } ≡ ok f =
              rw e at h in
            let same : record { principal = principal; capability = capability } ≡ f = cc in
            rw (← same) (refl, e)
        | inr e ↦ let k : err forbidden_not_allowlisted ≡ ok f = rw e at h in absurd (cc)
      ]

  judge_session-authorized :
      (raw p : Text) → judge_session d raw ≡ some p → is_authorized p d.web_allowlist d.pins ≡ true
  unfolding judge_session
  judge_session-authorized raw p h = of_principal (normalize_principal raw) h
    where
      of_principal :
          (r : Result Text)
          → (elim r [
            | err _ ↦ none
            | ok principal ↦
                if is_authorized principal d.web_allowlist d.pins then some principal else none
          ])
            ≡ some p
          → is_authorized p d.web_allowlist d.pins ≡ true
      of_principal (err x) k = absurd (cc)
      of_principal (ok principal) k =
          elim (Bool-cases (is_authorized principal d.web_allowlist d.pins)) [
            | inl e ↦
                let l : some principal ≡ some p = rw e at k in
                let same : principal ≡ p = cc in rw (← same) e
            | inr e ↦ let l : none ≡ some p = rw e at k in absurd (cc)
          ]

  session_login-authorized :
      (session : Dict) (p : Text)
      → session_login d session ≡ some p
      → is_authorized p d.web_allowlist d.pins ≡ true
  unfolding session_login
  session_login-authorized session p h = judged _ h
    where
      judged :
          (o : Option Text)
          → (elim o [ none ↦ none | some raw ↦ judge_session d raw ]) ≡ some p
          → is_authorized p d.web_allowlist d.pins ≡ true
      judged none k = absurd (cc)
      judged (some raw) k = judge_session-authorized raw p k

  require_pat-by_token :
      (session : Dict) (authorization : Option Text) (now : ℕ) (store : PatStore) (f : Friend)
      → (require_pat d authorization now store).0 ≡ ok f
      → Entry session authorization now store f
  unfolding require_pat
  require_pat-by_token session none now store f h = absurd (cc)
  require_pat-by_token session (some a) now store f h =
      elim (Option-cases (remove_prefix (codes "Bearer ") a)) [
        | inl e ↦ absurd (ground (arith, e, h))
        | inr (rest, e) ↦
            let (verified, allowed) =
              judge_verified-ok (verify_pat d.hash (strip rest) now store).0 f
                (rw (require_pat, e) at h) in
            Entry.by_token rest (ap some (remove_prefix-some (codes "Bearer ") a rest e)) verified
              allowed
      ]

  -- Whoever is let in is authorized at that moment: by a personal token that verifies, or, without an
  -- authorization header, by the session. A request with a header that fails is not saved by its session.
  pub friend_from_request_or_header-Entry :
      (session : Dict) (authorization : Option Text) (now : ℕ) (store : PatStore) (f : Friend)
      → (friend_from_request_or_header d session authorization now store).0 ≡ ok f
      → Entry session authorization now store f
  unfolding friend_from_request_or_header friend_from_header
  friend_from_request_or_header-Entry session authorization now store f h =
      elim (Option-cases (filled authorization)) [
        | inl e ↦ elim (Option-cases (session_login d session)) [
          | inl n ↦
              let k : err unauthorized ≡ ok f = rw (friend_from_request_or_header, e, n) at h in
              absurd (cc)
          | inr (login, n) ↦
              let k : ok record { principal = login; capability = default_capability } ≡ ok f =
                rw (friend_from_request_or_header, e, n) at h in
              let same : record { principal = login; capability = default_capability } ≡ f = cc in
              rw (← same) (
                Entry.by_session (filled-none authorization e) n
                  (session_login-authorized session login n))
        ]
        | inr (header, e) ↦
            let (given, _) = filled-inv authorization header e in
            elim (Bool-cases d.has_settings) [
              | inl s ↦ rw given (
                  require_pat-by_token session (some header) now store f
                    (rw (friend_from_request_or_header, e, friend_from_header, s) at h))
              | inr s ↦
                  let k : err unauthorized ≡ ok f =
                    rw (friend_from_request_or_header, e, friend_from_header, s) at h in
                  absurd (cc)
            ]
      ]
