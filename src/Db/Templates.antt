-- ===== src/Db/Templates.antt =====
-- db/templates.py: the table of `SQLiteTemplateRepository`. A JSON column holds the value of its text.
use meme_mcp.Base.{
  ◌≡◌, refl, Bool, false, not, ◌&&◌, none, some, List, [], ◌∷◌, arith, Text, text_eq, text_eq_refl,
  text_eq_iff, text_lt, Result, ok, err, integrity_error, key_error, if◌then◌else◌, Bool-cases, inl,
  inr, Option-cases,
}
use meme_mcp.Base.Json.{Dict, Items}
use meme_mcp.Base.Table.{update_where}
use meme_mcp.Base.Table.Keyed.{at, find, find-cons}
use meme_mcp.Base.Table.Listing.{any, order_by}

-- `TemplateCreate` and `TemplateRow` have the same fields.
pub record Template : Type 0 where
  pub template_id : Text
  pub slug : Text
  pub name : Text
  pub source : Text
  pub metadata : Dict
  pub slot_definitions : Items
  pub image_path : Text
  pub perceptual_hash : Text
  pub exact_hash : Text

abbrev pub template_key : Template → Text
template_key r = r.template_id

-- Another template has this one's slug.
abbrev pub slug_taken : Template → Template → Bool
slug_taken template r =
    text_eq r.slug template.slug && not (text_eq r.template_id template.template_id)

-- `upsert`: `INSERT … ON CONFLICT(id) DO UPDATE`, under `slug UNIQUE`.
unfoldable pub upsert : Template → List Template → Result (List Template)
unfolding any find update_where
upsert template s =
    if any (slug_taken template) s
    then err integrity_error
    else elim (find template_key template.template_id s) [
      | none ↦ ok (template ∷ s)
      | some _ ↦ ok (update_where (at template_key template.template_id) (λ _. template) s)
    ]

-- `get`
unfoldable pub get_template : Text → List Template → Result Template
unfolding find
get_template template_id s = elim (find template_key template_id s) [
  | none ↦ err key_error
  | some row ↦ ok row
]

-- `list_rows`: `ORDER BY name`
unfoldable pub list_rows : List Template → List Template
unfolding order_by text_lt
list_rows s = order_by (λ x y. text_lt x.name y.name) s

module _ (template : Template) where
  abbrev overwritten : List Template → List Template
  overwritten s = update_where (at template_key template.template_id) (λ _. template) s

  find-own_overwritten :
      (s : List Template) {row : Template}
      → find template_key template.template_id s ≡ some row
      → find template_key template.template_id (overwritten s) ≡ some template
  unfolding find update_where
  find-own_overwritten [] f = absurd (cc)
  find-own_overwritten (r ∷ s) {row} f =
      elim (Bool-cases (text_eq r.template_id template.template_id)) [
        | inl e ↦ rw (e, text_eq_refl template.template_id) refl
        | inr e ↦
            let found : find template_key template.template_id s ≡ some row = rw e at f in
            rw (e, e) (find-own_overwritten s found)
      ]

  find-other_overwritten :
      (k : Text) (s : List Template)
      → text_eq template.template_id k ≡ false
      → find template_key k (overwritten s) ≡ find template_key k s
  unfolding find update_where
  find-other_overwritten k [] n = refl
  find-other_overwritten k (r ∷ s) n =
      elim (Bool-cases (text_eq r.template_id template.template_id)) [
        | inl e ↦
            let same : r.template_id ≡ template.template_id =
              (text_eq_iff r.template_id template.template_id).0 e in
            rw (e, same, n) (find-other_overwritten k s n)
        | inr e ↦ rw (e, find-other_overwritten k s n) refl
      ]

  get-own :
      (s t : List Template)
      → upsert template s ≡ ok t
      → find template_key template.template_id t ≡ some template
  unfolding upsert
  get-own s t h = elim (Option-cases (find template_key template.template_id s)) [
    | inl e ↦
        let new : t ≡ template ∷ s = ground (arith, e, h) in
        rw
          (
            new,
            find-cons template_key template.template_id template s,
            text_eq_refl template.template_id,
          )
          refl
    | inr (row, e) ↦
        let new : t ≡ overwritten s = ground (arith, e, h) in rw new (find-own_overwritten s e)
  ]

  get-other :
      (s t : List Template) (k : Text)
      → upsert template s ≡ ok t
      → text_eq template.template_id k ≡ false
      → find template_key k t ≡ find template_key k s
  unfolding upsert
  get-other s t k h n = elim (Option-cases (find template_key template.template_id s)) [
    | inl e ↦
        let new : t ≡ template ∷ s = ground (arith, e, h) in
        rw (new, find-cons template_key k template s, n) refl
    | inr (row, e) ↦
        let new : t ≡ overwritten s = ground (arith, e, h) in rw new (find-other_overwritten k s n)
  ]

  -- After a template is stored, its id gives it back, whether it replaced one or is new, and every other
  -- id gives what it gave before.
  pub get_template-upsert :
      (s t : List Template) (k : Text)
      → upsert template s ≡ ok t
      → get_template k t
        ≡ (if text_eq template.template_id k then ok template else get_template k s)
  unfolding get_template
  get_template-upsert s t k h = elim (Bool-cases (text_eq template.template_id k)) [
    | inl e ↦
        let same : template.template_id ≡ k = (text_eq_iff template.template_id k).0 e in
        rw (e, ← same) (rw (get_template, get-own s t h) refl)
    | inr e ↦ rw e (rw (get_template, get-other s t k h e) refl)
  ]
