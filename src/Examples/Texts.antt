-- ===== src/Examples/Texts.antt =====
-- Metadata, hashes and cleaned texts at concrete inputs.
use meme_mcp.Base.{
  ◌≡◌, refl, false, true, none, some, [], ◌∷◌, ◌≤◌, List, codes, ok, text_eq, contains, length,
  is_space, lower_char, sym, ◌∙◌, Text,
}
use meme_mcp.Base.Json.{
  has_key, Dict, no_entries, entry, string, object, get, DistinctKeys, has_key,
}
use meme_mcp.Metadata.Locales.{
  locale_block, field_source, is_human, human, locales_key, merge_locales, stamp_locale_provenance,
  supported_content_locales, localized_fields, has_value, dict_slot,
}
use meme_mcp.Metadata.Locales.Display.{block_of}
use meme_mcp.Metadata.Locales.Merging.{incoming_entries}
use meme_mcp.Metadata.Locales.HumanWins.{HasDistinctLocales}
use meme_mcp.Metadata.Locales.Edits.{human_edits_survive}
use meme_mcp.Uploads.Dedupe.{DuplicateRecord, check_duplicates, warn}
use meme_mcp.Uploads.Dedupe.Verdicts.{Meaning, check_duplicates-Meaning}
use meme_mcp.Vlm.Sanitize.{Library, has_markup, has_zero_width, clean_string}
use meme_mcp.Vlm.Sanitize.Clean.{clean_string-IsClean}
use meme_mcp.Vlm.Sanitize.Metadata.{sanitize_origin_block}
use meme_mcp.Vlm.Sanitize.Metadata.Origin.{IsCleanOrigin, sanitize_origin_block-IsCleanOrigin}

-- Texts that have their normal form, and addresses of one host.
abbrev pub library : Library
library = record {
  nfkc = λ t. t;
  str_of = λ _. codes "None";
  split_url = λ _. ok record {
    scheme = codes "https";
    netloc = codes "knowyourmeme.com";
    hostname = codes "knowyourmeme.com";
    username = [];
    password = [];
  };
}

abbrev under_locale : Dict → Dict
under_locale block =
    entry locales_key (object (entry (codes "zh-TW") (object block) no_entries)) no_entries

-- A friend wrote the name; a model proposes another.
abbrev edited : Dict
edited = under_locale (entry (codes "name") (string (codes "dog")) no_entries)

abbrev proposed : Dict
proposed = under_locale (entry (codes "name") (string (codes "cat")) no_entries)

abbrev machine_name : Dict
machine_name = entry (codes "name") (string (codes "cat")) no_entries

machine_name-unmarked :
    DistinctKeys (incoming_entries machine_name)
    × (is_human (field_source machine_name (codes "name")) ≡ false)
unfolding field_source dict_slot text_eq
machine_name-unmarked = (tt, refl)

is_machine_name : locale_block proposed (some (codes "zh-TW")) ≡ some machine_name
unfolding locale_block text_eq
is_machine_name = refl

machine_block :
    (b : Dict)
    → locale_block proposed (some (codes "zh-TW")) ≡ some b
    → DistinctKeys (incoming_entries b) × (is_human (field_source b (codes "name")) ≡ false)
machine_block b e =
    let same : some machine_name ≡ some b = sym is_machine_name ∙ e in
    let same' : machine_name ≡ b = cc in rw (← same') machine_name-unmarked

known : contains (codes "zh-TW") supported_content_locales ≡ true
unfolding contains text_eq
known = refl

localized : contains (codes "name") localized_fields ≡ true
unfolding contains text_eq
localized = refl

listed : contains (codes "name") (codes "name" ∷ []) ≡ true
unfolding contains text_eq
listed = refl

filled_in : has_value (get (codes "name") (block_of edited (codes "zh-TW"))) ≡ true
unfolding has_value get dict_slot text_eq is_space
filled_in = refl

distinct : HasDistinctLocales proposed
unfolding dict_slot text_eq has_key
distinct = (refl, tt)

human_edits_survive_example :
    (merged : Dict) × (locale_block
        (merge_locales
          (some (stamp_locale_provenance edited (codes "zh-TW") (codes "name" ∷ []) human none))
          proposed)
        (some (codes "zh-TW"))
      ≡ some merged)
    × (get (codes "name") merged ≡ get (codes "name") (block_of edited (codes "zh-TW")))
    × (is_human (field_source merged (codes "name")) ≡ true)
human_edits_survive_example =
    human_edits_survive edited proposed (codes "zh-TW") (codes "name" ∷ []) none (codes "name")
      known localized listed filled_in distinct machine_block

-- Two images that are known, at distances of four bits and of one bit.
abbrev index : List DuplicateRecord
index =
    record { template_id = codes "far"; exact_hash = codes "h1"; perceptual_hash = codes "ff" }
    ∷ record { template_id = codes "near"; exact_hash = codes "h2"; perceptual_hash = codes "f1" }
    ∷ []

warns : check_duplicates index (codes "h3") (codes "f0") ≡ ok (warn (codes "near"))
unfolding check_duplicates
warns = refl

check_duplicates-Meaning_example : Meaning index (codes "h3") (codes "f0") (warn (codes "near"))
check_duplicates-Meaning_example =
    check_duplicates-Meaning index (codes "h3") (codes "f0") (warn (codes "near")) warns

clean_string-IsClean_example :
    (has_markup (clean_string library (codes "a<<b>c>") 80) ≡ false)
    × (has_zero_width (clean_string library (codes "a<<b>c>") 80) ≡ false)
    × (length (clean_string library (codes "a<<b>c>") 80) ≤ 80)
clean_string-IsClean_example = clean_string-IsClean library (codes "a<<b>c>") 80

abbrev origin : Dict
origin =
    entry (codes "name") (string (codes "Doge"))
      (entry (codes "source_url") (string (codes "https://knowyourmeme.com/doge")) no_entries)

cleans : sanitize_origin_block library origin ≡ ok origin
unfolding sanitize_origin_block is_space lower_char
cleans = refl

linked : has_key (codes "source_url") origin ≡ true
unfolding has_key text_eq
linked = refl

sanitize_origin_block-IsCleanOrigin_example :
    (contains (codes "source_url") (codes "name" ∷ codes "source_url" ∷ codes "status" ∷ []) ≡ true)
    × ((v : Text) × (get (codes "source_url") origin ≡ string v)
        × IsCleanOrigin library (codes "source_url") v)
sanitize_origin_block-IsCleanOrigin_example =
    sanitize_origin_block-IsCleanOrigin library origin origin (codes "source_url") cleans linked
