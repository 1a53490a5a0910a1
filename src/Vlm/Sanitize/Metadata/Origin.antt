-- ===== src/Vlm/Sanitize/Metadata/Origin.antt =====
-- vlm/sanitize.py, `_sanitize_origin_block`: what is stored of an origin.
use meme_mcp.Base.{
  ℕ, ◌≡◌, refl, ◌⊎◌, inl, inr, true, false, not, ◌||◌, List, [], ◌∷◌, arith, codes, ltb, length,
  ◌≤◌, Text, text_eq, text_eq_iff, contains, is_empty, strip, lower, sorted_set, ok, ◌>>=◌,
  >>=-eq-ok, if◌then◌else◌, Bool-cases, Option-cases,
}
use meme_mcp.Base.Json.{string, Dict, no_entries, entry, get, has_key}
use meme_mcp.Base.Table.Listing.{any}
use meme_mcp.Web.SafeNext.{has_char}
use meme_mcp.Metadata.Locales.{as_text}
use meme_mcp.Vlm.Sanitize.{
  Library, UrlParts, has_markup, is_infix, flags_of, all_flags, walk_strings, has_zero_width,
  flag_anomalies, clean_string, drop_zero_width, clean_and_guard, judge_url, sanitize_url,
}
use meme_mcp.Vlm.Sanitize.Metadata.{
  is_url_field, field_cap, clean_origin_value, clean_origin, sanitize_origin_block,
  allowed_origin_keys,
}

-- The flags that `flag_anomalies` has for one text.
unfoldable pub flags_for : Text → List Text
flags_for value = flag_anomalies (entry (codes "value") (string value) no_entries)

-- A link that may be shown: none, or one that splits into an https URL with a host and without an `@`.
abbrev pub IsSafeUrl : Library → Text → Type 0
IsSafeUrl lib v =
    (v ≡ [])
    ⊎ ((parts : UrlParts) × (lib.split_url v ≡ ok parts)
        × (text_eq parts.scheme (codes "https") ≡ true)
        × (is_empty parts.hostname ≡ false)
        × (is_empty parts.username ≡ true)
        × (is_empty parts.password ≡ true)
        × (has_char b'@' parts.netloc ≡ false)
        × (length v ≤ 2048))

abbrev pub IsCleanOrigin : Library → Text → Text → Type 0
IsCleanOrigin lib key v =
    if text_eq key (codes "source_url") then IsSafeUrl lib v else (flags_for v ≡ [])

flags_for-empty : flags_for [] ≡ []
unfolding flags_for flag_anomalies all_flags flags_of walk_strings has_markup is_infix any lower
    sorted_set has_char has_zero_width is_empty
flags_for-empty = refl

module _ (lib : Library) where
  clean_and_guard-flags : (value : Text) (cap : ℕ) → flags_for (clean_and_guard lib value cap) ≡ []
  unfolding clean_and_guard flags_for
  clean_and_guard-flags value cap = guarded _ refl
    where
      guarded :
          (flags : List Text)
          → flags_for (clean_string lib value cap) ≡ flags
          → flags_for (elim flags [ [] ↦ clean_string lib value cap | _ ∷ _ ↦ [] ]) ≡ []
      guarded [] e = e
      guarded (f ∷ flags) e = flags_for-empty

  judge_url-IsSafeUrl :
      (normalized : Text) (parts : UrlParts)
      → lib.split_url normalized ≡ ok parts
      → length normalized ≤ 2048
      → IsSafeUrl lib (judge_url lib normalized parts)
  unfolding judge_url
  judge_url-IsSafeUrl normalized parts split short =
      elim (Bool-cases (not (text_eq parts.scheme (codes "https")) || is_empty parts.hostname)) [
        | inl e ↦ rw (judge_url, e) (inl refl)
        | inr e ↦
            elim (Bool-cases (
              not (is_empty parts.username)
              || not (is_empty parts.password)
              || has_char b'@' parts.netloc)) [
                | inl f ↦ rw (judge_url, e, f) (inl refl)
                | inr f ↦
                    rw (judge_url, e, f)
                      (inr (
                        parts,
                        split,
                        ground (arith, e),
                        ground (arith, e),
                        ground (arith, f),
                        ground (arith, f),
                        ground (arith, f),
                        short,
                      ))
              ]
      ]

  sanitize_url-IsSafeUrl : (value v : Text) → sanitize_url lib value ≡ ok v → IsSafeUrl lib v
  unfolding sanitize_url
  sanitize_url-IsSafeUrl value v h = judged (drop_zero_width (strip (lib.nfkc value))) h
    where
      judged :
          (normalized : Text)
          → (if is_empty normalized || ltb 2048 (length normalized)
              then ok []
              else lib.split_url normalized >>= (λ parsed. ok (judge_url lib normalized parsed)))
            ≡ ok v
          → IsSafeUrl lib v
      judged normalized k =
          elim (Bool-cases (is_empty normalized || ltb 2048 (length normalized))) [
            | inl e ↦
                let done : ok [] ≡ ok v = rw e at k in let same : v ≡ [] = cc in rw same (inl refl)
            | inr e ↦
                let (parts, split, done) = >>=-eq-ok (lib.split_url normalized) _ (rw e at k) in
                let same : judge_url lib normalized parts ≡ v = cc in
                rw (← same) (judge_url-IsSafeUrl normalized parts split (ground (arith, e)))
          ]

  clean_origin_value-IsCleanOrigin :
      (key value v : Text) → clean_origin_value lib key value ≡ ok v → IsCleanOrigin lib key v
  unfolding clean_origin_value
  clean_origin_value-IsCleanOrigin key value v h = elim (Bool-cases (is_url_field key)) [
    | inl u ↦ elim (Bool-cases (is_empty value)) [
      | inl e ↦
          let done : ok [] ≡ ok v = rw e at h in let same : v ≡ [] = cc in rw (u, same) (inl refl)
      | inr e ↦ rw u (sanitize_url-IsSafeUrl value v (rw (e, u) at h))
    ]
    | inr u ↦ elim (Bool-cases (is_empty value)) [
      | inl e ↦
          let done : ok [] ≡ ok v = rw e at h in
          let same : v ≡ [] = cc in rw (u, same) flags_for-empty
      | inr e ↦ rw u (prose u (field_cap key) (rw e at h))
    ]
  ]
    where
      prose :
          is_url_field key ≡ false
          → (cap : ℕ)
          → (if is_url_field key
              then sanitize_url lib value
              else ok (clean_and_guard lib value cap))
            ≡ ok v
          → flags_for v ≡ []
      prose n cap k =
          let done : ok (clean_and_guard lib value cap) ≡ ok v = rw n at k in
          let same : clean_and_guard lib value cap ≡ v = cc in
          rw (← same) (clean_and_guard-flags value cap)

  clean_origin-entries :
      (origin : Dict) (keys : List Text) (block : Dict) (k : Text)
      → clean_origin lib origin keys ≡ ok block
      → has_key k block ≡ true
      → (contains k keys ≡ true) × ((v : Text) × (get k block ≡ string v) × IsCleanOrigin lib k v)
  unfolding clean_origin contains get has_key
  clean_origin-entries origin [] block k h g =
      let same : no_entries ≡ block = cc in
      let absent : false ≡ true = rw (← same) at g in absurd (cc)
  clean_origin-entries origin (key ∷ keys) block k h g =
      let (rest, done, more) = >>=-eq-ok (clean_origin lib origin keys) _ h in
      elim (Option-cases (as_text (get key origin))) [
        | inl e ↦
            let kept : ok rest ≡ ok block = rw e at more in
            let same : rest ≡ block = cc in
            let (m, (v, f, c)) = clean_origin-entries origin keys rest k done (rw (← same) at g) in
            (ground (arith, m), (v, rw (← same) f, c))
        | inr (value, e) ↦
            let (cleaned, judged, written) =
              >>=-eq-ok (clean_origin_value lib key value) _ (rw e at more) in
            let same : entry key (string cleaned) rest ≡ block = cc in
            rw (← same) (elim (Bool-cases (text_eq key k)) [
              | inl q ↦
                  let own : key ≡ k = (text_eq_iff key k).0 q in
                  (
                    ground (arith, text_eq_iff k key, own),
                    (
                      cleaned,
                      rw q refl,
                      rw (← own) (clean_origin_value-IsCleanOrigin key value cleaned judged),
                    ),
                  )
              | inr q ↦
                  let there : has_key k (entry key (string cleaned) rest) ≡ true =
                    rw (← same) at g in
                  let (m, (v, f, c)) =
                    clean_origin-entries origin keys rest k done (rw q at there) in
                  (ground (arith, m), (v, rw q f, c))
            ])
      ]

  -- Whatever dict is given for an origin, what is stored has only the three allowed keys, whose values
  -- are texts; its name and status raise no flag, and its link is empty or an https URL with a host,
  -- without a user, a password or an `@` before it, of at most 2048 characters.
  pub sanitize_origin_block-IsCleanOrigin :
      (origin block : Dict) (k : Text)
      → sanitize_origin_block lib origin ≡ ok block
      → has_key k block ≡ true
      → (contains k (codes "name" ∷ codes "source_url" ∷ codes "status" ∷ []) ≡ true)
        × ((v : Text) × (get k block ≡ string v) × IsCleanOrigin lib k v)
  unfolding sanitize_origin_block
  sanitize_origin_block-IsCleanOrigin origin block k h g =
      clean_origin-entries origin allowed_origin_keys block k h g
