-- ===== src/Limits/Bounds.antt =====
-- limits.py: how many hits of a sequence pass.
use meme_mcp.Base.{
  ℕ, suc, ◌+◌, ◌-◌, ◌≤◌, ◌<◌, ◌≡◌, refl, Option, none, some, List, [], ◌∷◌, arith, leb, Text,
  text_eq, text_eq_iff, text_eq_refl, All, if◌then◌else◌, Bool-cases, inl, inr,
}
use meme_mcp.Limits.{
  RateLimiter, WindowedRateLimiter, hit, count_hit, windowed_hit, passed, windowed_passed,
}

-- `min` of the room under the limit and the number of hits of the key.
abbrev pub attempts : Text → List Text → ℕ
attempts key [] = 0
attempts key (k ∷ hits) = let rest = attempts key hits in if text_eq k key then suc rest else rest

module _ (key : Text) where
  -- Of any sequence of hits exactly those of a key pass for which there is room under the limit: its
  -- first ones, until the limit is reached, whatever other keys do in between.
  pub passed-attempts :
      (hits : List Text) (r : RateLimiter)
      → passed key hits r ≡ (
          if leb (attempts key hits) (r.limit - r.counts key)
          then attempts key hits
          else r.limit - r.counts key)
  unfolding passed hit
  passed-attempts [] r = ground arith
  passed-attempts (k ∷ hits) r = elim (Bool-cases (text_eq k key)) [
    | inl e ↦
        let same : k ≡ key = (text_eq_iff k key).0 e in
        let rest = passed-attempts hits (hit key r).1 in
        rw same (ground (arith, rest, text_eq_refl key))
    | inr e ↦ rw (e, passed-attempts hits (hit k r).1, e) refl
  ]

  -- The times of a batch lie in one window's length from `from`.
  abbrev pub Within : ℕ → ℕ → List (Text × ℕ) → Type 0
  Within from window hits = All (λ h. (from ≤ h.1) × (h.1 < from + window)) hits

  module _ (from : ℕ) where
    -- After the window of the key was opened in the batch, there is one limit's room for it.
    passed-open :
        (hits : List (Text × ℕ)) (w : WindowedRateLimiter) (start count : ℕ)
        → Within from w.window_seconds hits
        → w.windows key ≡ some (start, count)
        → from ≤ start
        → windowed_passed key hits w ≤ w.limit - count
    unfolding windowed_passed windowed_hit count_hit
    passed-open [] w start count h e o = ground arith
    passed-open ((k, now) ∷ hits) w start count h e o = elim (Bool-cases (text_eq k key)) [
      | inl f ↦
          let same : k ≡ key = (text_eq_iff k key).0 f in
          rw same (
            ground (
              arith,
              e,
              h.0,
              passed-open hits (windowed_hit key now w).1 start (count + 1) h.1
                  (rw (e, text_eq_refl) (ground arith)) o,
            ))
      | inr f ↦
          let rest = passed-open hits (windowed_hit k now w).1 start count h.1 (rw (f, e) refl) o in
          rw f rest
    ]

    -- The room that a batch in one window's length has at most.
    abbrev room : ℕ → Option (ℕ × ℕ) → ℕ
    room limit none = limit
    room limit (some (start, count)) = (limit - count) + limit

    passed-room :
        (hits : List (Text × ℕ)) (w : WindowedRateLimiter) (entry : Option (ℕ × ℕ))
        → Within from w.window_seconds hits
        → w.windows key ≡ entry
        → windowed_passed key hits w ≤ room w.limit entry
    unfolding windowed_passed windowed_hit count_hit
    passed-room [] w entry h e = ground arith
    passed-room ((k, now) ∷ hits) w entry h e = elim (Bool-cases (text_eq k key)) [
      | inr f ↦
          let rest = passed-room hits (windowed_hit k now w).1 entry h.1 (rw (f, e) refl) in
          rw f rest
      | inl f ↦
          let same : k ≡ key = (text_eq_iff k key).0 f in
          rw same (own (λ o. passed-room hits (windowed_hit key now w).1 o h.1) entry e)
    ]
      where
        own :
            ((o : Option (ℕ × ℕ))
              → (windowed_hit key now w).1.windows key ≡ o
              → windowed_passed key hits (windowed_hit key now w).1 ≤ room w.limit o)
            → (o : Option (ℕ × ℕ)) → w.windows key ≡ o
            → windowed_passed key ((key, now) ∷ hits) w ≤ room w.limit o
        own go none e =
            let rest =
              passed-open hits (windowed_hit key now w).1 now 1 h.1 (rw (e, text_eq_refl) refl)
                h.0.0 in
            ground (arith, e, rest, text_eq_refl key)
        own go (some (start, count)) e = elim (Bool-cases (leb (start + w.window_seconds) now)) [
          | inl g ↦
              let rest =
                passed-open hits (windowed_hit key now w).1 now 1 h.1 (rw (e, text_eq_refl, g) refl)
                  h.0.0 in
              ground (arith, e, g, rest, text_eq_refl key)
          | inr g ↦
              let rest = go (some (start, count + 1)) (rw (e, text_eq_refl, g) refl) in
              ground (arith, e, g, rest, text_eq_refl key)
        ]

    -- In any batch of hits within the length of one window, whatever came before it, at most twice the
    -- limit of a key's hits pass; and at most the limit, if the key was not seen before.
    pub windowed_passed_bound :
        (hits : List (Text × ℕ)) (w : WindowedRateLimiter)
        → Within from w.window_seconds hits
        → (windowed_passed key hits w ≤ w.limit + w.limit)
          × (w.windows key ≡ none → windowed_passed key hits w ≤ w.limit)
    windowed_passed_bound hits w h = (
      at_most (w.windows key) (passed-room hits w (w.windows key) h refl),
      λ e. passed-room hits w none h e,
    )
      where
        at_most :
            (o : Option (ℕ × ℕ))
            → windowed_passed key hits w ≤ room w.limit o
            → windowed_passed key hits w ≤ w.limit + w.limit
        at_most none h = omega arith
        at_most (some (start, count)) h = omega arith
