-- ===== src/Metadata/Locales/Edits.antt =====
-- metadata_locales.py, `stamp_locale_provenance` with `merge_locales`: an edit by a friend, and then a
-- translation by a model.
use meme_mcp.Base.{◌≡◌, ◌∙◌, refl, true, false, Option, some, List, Text, text_eq, contains}
use meme_mcp.Base.Json.{Dict, get, DistinctKeys}
use meme_mcp.Metadata.Locales.{
  supported_content_locales, localized_fields, has_value, field_source, locale_block, is_human,
  human, stamp_locale_provenance, merge_locales,
}
use meme_mcp.Metadata.Locales.Merging.{incoming_entries}
use meme_mcp.Metadata.Locales.HumanWins.{HasDistinctLocales, merge_locales-human_wins}
use meme_mcp.Metadata.Locales.Display.{block_of, stamp_locale_provenance-source}

-- A value that a friend wrote in a localized field of a supported locale, stamped as human, survives the
-- merge with any metadata whose block of this locale does not say that a human wrote the field; it stays marked as
-- human. The keys of the incoming dicts are distinct, as those of every Python dict.
pub human_edits_survive :
    (metadata incoming : Dict) (locale : Text) (fields : List Text) (drift : Option Text) (f : Text)
    → contains locale supported_content_locales ≡ true
    → contains f localized_fields ≡ true
    → contains f fields ≡ true
    → has_value (get f (block_of metadata locale)) ≡ true
    → HasDistinctLocales incoming
    → ((b : Dict)
        → locale_block incoming (some locale) ≡ some b
        → DistinctKeys (incoming_entries b) × (is_human (field_source b f) ≡ false))
    → (merged : Dict) × (locale_block
          (merge_locales
            (some (stamp_locale_provenance metadata locale fields human drift))
            incoming)
          (some locale)
        ≡ some merged)
      × (get f merged ≡ get f (block_of metadata locale))
      × (is_human (field_source merged f) ≡ true)
unfolding text_eq
human_edits_survive metadata incoming locale fields drift f known h listed v d b =
    let (block, located, value, source) =
      stamp_locale_provenance-source metadata locale known fields human drift f h in
    let marked : is_human (field_source block f) ≡ true = rw (source, listed, v) refl in
    let (merged, place, same, still) =
      merge_locales-human_wins locale known
        (stamp_locale_provenance metadata locale fields human drift) incoming block f located h
        marked d (λ x q. (b x q).0) (λ x q. (b x q).1) in
    (merged, place, same ∙ value, still)
