-- ===== src/Vlm/Drift.antt =====
-- vlm/drift.py: the gate against mainland vocabulary in the zh-TW half of the metadata. `verdict` is
-- what hanzidentifier says of a text, `none` where it gives no verdict.
use meme_mcp.Base.{
  Bool, true, false, ◌||◌, Option, none, some, List, [], ◌∷◌, ◌++◌, map, codes, Text, is_empty,
  if◌then◌else◌,
}
use meme_mcp.Base.Json.{Json, string, array, Items, no_items, item, Dict, no_entries, entry}
use meme_mcp.Metadata.Locales.{locale_block}
use meme_mcp.Web.SafeNext.{has_char}
use meme_mcp.Vlm.Sanitize.{is_infix, is_private}

-- `MAINLAND_VOCAB_DENYLIST`: a term and what is preferred to it
abbrev pub mainland_vocab_denylist : List (Text × Text)
mainland_vocab_denylist =
    (codes "視頻", codes "影片")
    ∷ (codes "视频", codes "影片")
    ∷ (codes "質量", codes "品質")
    ∷ (codes "质量", codes "品質")
    ∷ (codes "软件", codes "軟體")
    ∷ (codes "軟件", codes "軟體")
    ∷ (codes "网络", codes "網路")
    ∷ (codes "信息", codes "資訊")
    ∷ (codes "后台", codes "後台")
    ∷ (codes "程序", codes "程式")
    ∷ []

abbrev pub simplified_only : Text
simplified_only = codes "视频质软网络数据库开发"

-- `any(char in SIMPLIFIED_ONLY for char in text)`
unfoldable pub has_simplified : Text → Bool
unfolding has_char
has_simplified [] = false
has_simplified (c ∷ s) = has_char c simplified_only || has_simplified s

unfoldable pub vocab_reasons : Text → List (Text × Text) → List Text
unfolding is_infix
vocab_reasons text [] = []
vocab_reasons text ((term, preferred) ∷ terms) =
    let rest = vocab_reasons text terms in
    if is_infix term text
    then (codes "mainland_vocab:" ++ term ++ codes "->" ++ preferred) ∷ rest
    else rest

unfoldable pub script_reasons : Text → Option Bool → List Text
unfolding has_simplified
script_reasons text (some true) = codes "simplified_or_mixed" ∷ []
script_reasons text (some false) = []
script_reasons text none = if has_simplified text then codes "simplified_character" ∷ [] else []

module _ (verdict : Text → Option Bool) where
  -- The reasons of `check_drift`; a text passes where there are none.
  unfoldable pub check_drift : Text → List Text
  unfolding is_empty script_reasons vocab_reasons
  check_drift text =
      if is_empty text
      then []
      else script_reasons text (verdict text) ++ vocab_reasons text mainland_vocab_denylist

  -- What is no text is skipped.
  unfoldable pub check_item : Json → List Text
  unfolding check_drift
  check_item (string s) = check_drift s
  check_item _ = []

  unfoldable pub check_items : Items → List Text
  unfolding check_item
  check_items no_items = []
  check_items (item x xs) = check_item x ++ check_items xs

  unfoldable pub check_value : Json → List Text
  unfolding check_items check_item
  check_value (array xs) = check_items xs
  check_value v = check_item v

  -- `f"{key}:{reason}"`
  abbrev pub tagged : Text → List Text → List Text
  tagged key reasons = map (λ reason. key ++ (b':' ∷ reason)) reasons

  unfoldable pub check_block : Dict → List Text
  unfolding check_value
  check_block no_entries = []
  check_block (entry key value d) =
      let rest = check_block d in
      if is_private key then rest else tagged key (check_value value) ++ rest

  -- The reasons of `check_metadata_drift`
  unfoldable pub check_metadata_drift : Dict → Text → List Text
  unfolding locale_block check_block
  check_metadata_drift metadata locale = elim (locale_block metadata (some locale)) [
    | none ↦ []
    | some block ↦ check_block block
  ]
