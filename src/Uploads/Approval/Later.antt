-- ===== src/Uploads/Approval/Later.antt =====
-- db/templates.py: the tables after later calls of `upsert`.
use meme_mcp.Base.{◌≡◌, ◌∙◌, refl, inl, inr, true, List, Text, text_eq, ok, Bool-cases}
use meme_mcp.Db.Templates.{Template, upsert, get_template, get_template-upsert}

-- The template of an id has an image.
abbrev pub Holds : Text → Text → List Template → Type 0
Holds id image_path templates =
    (t : Template) × (get_template id templates ≡ ok t) × (t.image_path ≡ image_path)

module _ (id image_path : Text) where
  -- The tables that later calls of `upsert` make, which give the id no other image.
  pub data Later (s : List Template) : List Template → Type 0 where
    here : Later s s
    next :
        {t u : List Template}
        → Later s t
        → (template : Template)
        → (text_eq template.template_id id ≡ true → template.image_path ≡ image_path)
        → upsert template t ≡ ok u
        → Later s u

  upsert-Holds :
      (t u : List Template) (template : Template)
      → (text_eq template.template_id id ≡ true → template.image_path ≡ image_path)
      → upsert template t ≡ ok u
      → Holds id image_path t
      → Holds id image_path u
  upsert-Holds t u template same stored (row, found, image) =
      elim (Bool-cases (text_eq template.template_id id)) [
        | inl e ↦ (template, get_template-upsert template t u id stored ∙ rw e refl, same e)
        | inr e ↦ (row, get_template-upsert template t u id stored ∙ rw e found, image)
      ]

  pub Later-Holds :
      {s t : List Template} → Later s t → Holds id image_path s → Holds id image_path t
  Later-Holds here h = h
  Later-Holds (next l template same stored) h =
      upsert-Holds _ _ template same stored (Later-Holds l h)
