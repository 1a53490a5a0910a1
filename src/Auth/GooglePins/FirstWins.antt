-- ===== src/Auth/GooglePins/FirstWins.antt =====
-- auth/google_pins.py: the calls of the store in sequence.
use meme_mcp.Base.{
  Bool, true, false, ◌≢◌, text_eq_iff, text_eq_refl, Option, none, refl, ℕ, ◌≡◌, ◌↔◌, some, [],
  arith, Text, text_eq, utc, is_some, ◌||◌, Option-cases, Bool-cases, inl, inr,
}
use meme_mcp.Base.Table.Keyed.{find, at, find-own, find-key, Distinct, Distinct-delete_where}
use meme_mcp.Auth.GooglePins.{
  Pin, Pins, sub_key, email_key, email_for_sub, sub_for_email, insert_or_ignore, create_pin,
  delete_by_email, delete_by_sub,
}

pub record IsUnique (s : Pins) : Type 0 where
  pub subs : Distinct sub_key s
  pub emails : Distinct email_key s

-- The calls that change the table.
pub data Step (s s' : Pins) : Type 0 where
  creates : (sub email : Text) (now : ℕ) → s' ≡ (create_pin sub email now s).1 → Step s s'
  deletes_email : (email : Text) → s' ≡ (delete_by_email email s).1 → Step s s'
  deletes_sub : (sub : Text) → s' ≡ (delete_by_sub sub s).1 → Step s s'

pub data Reach (s : Pins) : Pins → Type 0 where
  here : Reach s s
  next : {u v : Pins} → Reach s u → Step u v → Reach s v

insert_or_ignore-IsUnique : (p : Pin) (s : Pins) → IsUnique s → IsUnique (insert_or_ignore p s)
unfolding insert_or_ignore
insert_or_ignore-IsUnique p s h =
    elim (Bool-cases (is_some (find sub_key p.sub s) || is_some (find email_key p.email s))) [
      | inl e ↦ rw e h
      | inr e ↦ rw e (record { subs = (ground arith, h.subs); emails = (ground arith, h.emails) })
    ]

Step-IsUnique : {s s' : Pins} → Step s s' → IsUnique s → IsUnique s'
unfolding create_pin delete_by_email delete_by_sub
Step-IsUnique {s} (creates sub email now e) h =
    rw e (insert_or_ignore-IsUnique (record { sub = sub; email = email; created_at = utc now }) s h)
Step-IsUnique {s} (deletes_email email e) h = rw e (record {
  subs = Distinct-delete_where sub_key (at email_key email) s h.subs;
  emails = Distinct-delete_where email_key (at email_key email) s h.emails;
})
Step-IsUnique {s} (deletes_sub sub e) h = rw e (record {
  subs = Distinct-delete_where sub_key (at sub_key sub) s h.subs;
  emails = Distinct-delete_where email_key (at sub_key sub) s h.emails;
})

pub Reach-IsUnique : {s s' : Pins} → IsUnique s → Reach s s' → IsUnique s'
Reach-IsUnique h here = h
Reach-IsUnique h (next r step) = Step-IsUnique step (Reach-IsUnique h r)

pinned_forward :
    (s : Pins) (sub email : Text)
    → IsUnique s
    → email_for_sub sub s ≡ some email
    → sub_for_email email s ≡ some sub
unfolding email_for_sub sub_for_email find
pinned_forward s sub email h e = elim (Option-cases (find sub_key sub s)) [
  | inl miss ↦ absurd (ground arith)
  | inr (r, f) ↦
      let mailbox : r.email ≡ email = ground arith in
      let found = find-own email_key (λ x. text_eq x.sub sub) s f h.emails in
      ground (arith, found, mailbox, find-key sub_key sub s f)
]

pinned_backward :
    (s : Pins) (sub email : Text)
    → IsUnique s
    → sub_for_email email s ≡ some sub
    → email_for_sub sub s ≡ some email
unfolding email_for_sub sub_for_email find
pinned_backward s sub email h e = elim (Option-cases (find email_key email s)) [
  | inl miss ↦ absurd (ground arith)
  | inr (r, f) ↦
      let owner : r.sub ≡ sub = ground arith in
      let found = find-own sub_key (λ x. text_eq x.email email) s f h.subs in
      ground (arith, found, owner, find-key email_key email s f)
]

-- In every table that the calls make of an empty one, a `sub` is pinned to a mailbox exactly if the
-- mailbox is pinned to the `sub`.
pub pins_are_mutual :
    (s : Pins) (sub email : Text)
    → Reach [] s
    → (email_for_sub sub s ≡ some email) ↔ (sub_for_email email s ≡ some sub)
pins_are_mutual s sub email reach =
    let unique = Reach-IsUnique (record { subs = tt; emails = tt }) reach in
    (pinned_forward s sub email unique, pinned_backward s sub email unique)

-- Where the mailbox is pinned, nothing is inserted.
create_pin-taken :
    (s : Pins) (sub email other : Text) (now : ℕ)
    → sub_for_email email s ≡ some sub
    → create_pin other email now s
      ≡ (elim (email_for_sub other s) [ none ↦ false | some e ↦ text_eq e email ], s)
unfolding create_pin insert_or_ignore sub_for_email
create_pin-taken s sub email other now e = elim (Option-cases (find email_key email s)) [
  | inl miss ↦ absurd (ground (arith, miss, e))
  | inr (r, hit) ↦
      let ignored : (is_some (find sub_key other s) || is_some (find email_key email s)) ≡ true =
        ground (arith, hit) in
      rw ignored refl
]

-- The first sign-in for a mailbox keeps it: while it is pinned, a sign-in of any other `sub` for it is
-- refused and changes nothing, and the owner's own sign-in succeeds and changes nothing.
pub create_pin-first_wins :
    (s : Pins) (sub email other : Text) (now : ℕ)
    → Reach [] s
    → sub_for_email email s ≡ some sub
    → (create_pin sub email now s ≡ (true, s))
      × (other ≢ sub → create_pin other email now s ≡ (false, s))
create_pin-first_wins s sub email other now reach e =
    let own = (pins_are_mutual s sub email reach).1 e in
    (
      rw (create_pin-taken s sub email sub now e, own, text_eq_refl) refl,
      λ ne. rw (create_pin-taken s sub email other now e) (refused ne (email_for_sub other s) refl),
    )
  where
    refused :
        other ≢ sub
        → (o : Option Text) → email_for_sub other s ≡ o
        → ◌≡◌ {A = Bool × Pins}
            (elim (email_for_sub other s) [ none ↦ false | some e ↦ text_eq e email ], s)
            (false, s)
    refused ne none m = rw m refl
    refused ne (some found) m = elim (Bool-cases (text_eq found email)) [
      | inr f ↦ rw (m, f) refl
      | inl f ↦
          let same : found ≡ email = (text_eq_iff found email).0 f in
          let mine = (pins_are_mutual s other email reach).0 (rw same at m) in
          absurd (ne (ground (arith, mine, e)))
    ]
