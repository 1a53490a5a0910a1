-- ===== src/Auth/Sessions/GoogleSignIn.antt =====
-- app.py, `_resolve_google_principal`: who signs in with Google.
use meme_mcp.Base.{
  ℕ, ◌≡◌, ◌∙◌, refl, ap, inl, inr, Bool, true, false, Option, none, some, Text, text_eq,
  text_eq_iff, is_empty, partition, Bool-cases, Option-cases,
}
use meme_mcp.Auth.Authorization.{named, google, is_authorized, pinned_mailbox_allowed}
use meme_mcp.Auth.Allowlist.{canonical_email}
use meme_mcp.Auth.GooglePins.{Pins, email_for_sub, create_pin}
use meme_mcp.Auth.Sessions.{lookup, resolve_google_principal}

is_authorized-google :
    (sub : Text) (allowed : Text → Bool) (pins : Pins)
    → is_authorized (named google sub) allowed (lookup pins)
      ≡ pinned_mailbox_allowed sub allowed (lookup pins)
unfolding is_authorized partition text_eq
is_authorized-google sub allowed pins = refl

pinned_allowed :
    (sub mailbox : Text) (allowed : Text → Bool) (pins : Pins)
    → is_empty sub ≡ false
    → email_for_sub sub pins ≡ some mailbox
    → pinned_mailbox_allowed sub allowed (lookup pins) ≡ allowed (named google mailbox)
unfolding pinned_mailbox_allowed
pinned_allowed sub mailbox allowed pins n e = rw (pinned_mailbox_allowed, n, e) refl

create_pin-pinned :
    (sub mailbox : Text) (now : ℕ) (pins : Pins)
    → (create_pin sub mailbox now pins).0 ≡ true
    → email_for_sub sub (create_pin sub mailbox now pins).1 ≡ some mailbox
unfolding create_pin
create_pin-pinned sub mailbox now pins h = pinned _ h
  where
    pinned :
        (o : Option Text)
        → (elim o [ none ↦ false | some e ↦ text_eq e mailbox ]) ≡ true
        → o ≡ some mailbox
    pinned none k = absurd (cc)
    pinned (some e) k = ap some ((text_eq_iff e mailbox).0 k)

-- A sign-in with Google that succeeds gives the principal of the subject, and the predicate that guards
-- every later request accepts it with the pins that the sign-in leaves.
pub resolve_google_principal-authorized :
    (web_allowlist : Text → Bool) (sub email : Text) (now : ℕ) (pins : Pins) (p : Text)
    → (resolve_google_principal web_allowlist sub email now pins).0 ≡ some p
    → (p ≡ named google sub)
      × (is_authorized p web_allowlist
            (lookup (resolve_google_principal web_allowlist sub email now pins).1)
          ≡ true)
unfolding resolve_google_principal
resolve_google_principal-authorized web_allowlist sub email now pins p h =
    elim (Bool-cases (is_empty sub)) [
      | inl n ↦ let k : none ≡ some p = rw (resolve_google_principal, n) at h in absurd (cc)
      | inr n ↦ elim (Option-cases (email_for_sub sub pins)) [
        | inr (mailbox, e) ↦
            elim (Bool-cases (is_authorized (named google sub) web_allowlist (lookup pins))) [
              | inl a ↦
                  let k : some (named google sub) ≡ some p =
                    rw (resolve_google_principal, n, e, a) at h in
                  let same : named google sub ≡ p = cc in
                  rw (resolve_google_principal, n, e, ← same) (refl, a)
              | inr a ↦
                  let k : none ≡ some p = rw (resolve_google_principal, n, e, a) at h in absurd (cc)
            ]
        | inl e ↦
            let mailbox = canonical_email email in
            elim (Bool-cases (web_allowlist (named google mailbox))) [
              | inr a ↦
                  let k : none ≡ some p = rw (resolve_google_principal, n, e, a) at h in absurd (cc)
              | inl a ↦ elim (Bool-cases (create_pin sub mailbox now pins).0) [
                | inr c ↦
                    let k : none ≡ some p = rw (resolve_google_principal, n, e, a, c) at h in
                    absurd (cc)
                | inl c ↦
                    let k : some (named google sub) ≡ some p =
                      rw (resolve_google_principal, n, e, a, c) at h in
                    let same : named google sub ≡ p = cc in
                    let pinned = create_pin-pinned sub mailbox now pins c in
                    rw (resolve_google_principal, n, e, a, ← same)
                      (
                        refl,
                        is_authorized-google sub web_allowlist (create_pin sub mailbox now pins).1
                            ∙ pinned_allowed sub mailbox web_allowlist
                                (create_pin sub mailbox now pins).1 n pinned
                            ∙ a,
                      )
              ]
            ]
      ]
    ]
