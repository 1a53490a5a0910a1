-- ===== src/Auth/GooglePins.antt =====
-- auth/google_pins.py: `SQLiteGooglePinStore`, a table of pins from a Google `sub` to a mailbox, in
-- which both columns are unique.
pub mod FirstWins
use mathlib.Core.Option
use meme_mcp.Base.{
  ℕ, ltb, Bool, true, false, Option, none, some, List, [], ◌∷◌, Text, text_eq, Stamp, utc, is_some,
  ◌||◌, if◌then◌else◌,
}
use meme_mcp.Base.Table.{delete_where, count_where}
use meme_mcp.Base.Table.Keyed.{find, at}

pub record Pin : Type 0 where
  pub sub : Text
  pub email : Text
  pub created_at : Stamp

abbrev pub Pins : Type 0
Pins = List Pin

abbrev pub sub_key : Pin → Text
sub_key p = p.sub

abbrev pub email_key : Pin → Text
email_key p = p.email

unfoldable pub email_for_sub : Text → Pins → Option Text
email_for_sub sub s = Option.map email_key (find sub_key sub s)

unfoldable pub sub_for_email : Text → Pins → Option Text
sub_for_email email s = Option.map sub_key (find email_key email s)

-- `INSERT OR IGNORE`: a taken `sub` and a taken mailbox are both ignored.
unfoldable pub insert_or_ignore : Pin → Pins → Pins
insert_or_ignore p s =
    if is_some (find sub_key p.sub s) || is_some (find email_key p.email s) then s else p ∷ s

unfoldable pub create_pin : Text → Text → ℕ → Pins → Bool × Pins
unfolding insert_or_ignore email_for_sub
create_pin sub email now s =
    let s' = insert_or_ignore (record { sub = sub; email = email; created_at = utc now }) s in
    (elim (email_for_sub sub s') [ none ↦ false | some e ↦ text_eq e email ], s')

unfoldable pub delete_by_email : Text → Pins → Bool × Pins
delete_by_email email s =
    (ltb 0 (count_where (at email_key email) s), delete_where (at email_key email) s)

unfoldable pub delete_by_sub : Text → Pins → Bool × Pins
delete_by_sub sub s = (ltb 0 (count_where (at sub_key sub) s), delete_where (at sub_key sub) s)
