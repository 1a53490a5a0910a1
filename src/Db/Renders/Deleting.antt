-- ===== src/Db/Renders/Deleting.antt =====
-- cli/gc_renders.py, the last two loops of `_gc`.
use meme_mcp.Base.{
  ◌+◌, ◌≡◌, ◌≤◌, ◌∙◌, refl, ap, sym, inl, inr, true, false, ◌||◌, none, List, [], ◌∷◌, map, arith,
  Text, text_eq, text_eq_iff, text_eq_refl, contains, length, if◌then◌else◌, All, Bool-cases,
  Option-cases,
}
use meme_mcp.Base.Table.{
  delete_where, first_where, first_where-delete_where, first_where-delete_where-none,
}
use meme_mcp.Base.Table.Keyed.{at, find, Distinct}
use meme_mcp.Base.Table.Listing.{sum_by, delete_where_none, delete_where-delete_where}
use meme_mcp.Db.Receipts.{receipt_key, delete_receipt}
use meme_mcp.Db.Renders.{
  File, file_key, size_of, delete_by_hash, Candidate, unique, Collected, delete_one, delete_all,
}

abbrev pub candidate_key : Candidate → Text
candidate_key c = c.hash

pub size_of-delete :
    (k h : Text) (files : List File)
    → size_of (delete_where (at file_key k) files) h ≡ (if text_eq k h then 0 else size_of files h)
unfolding size_of find
size_of-delete k h files = elim (Bool-cases (text_eq k h)) [
  | inl e ↦
      let same : k ≡ h = (text_eq_iff k h).0 e in
      let gone : find file_key h (delete_where (at file_key k) files) ≡ none =
        first_where-delete_where-none (at file_key k) (at file_key h) files (λ f q. rw same q) in
      rw (e, size_of, gone) refl
  | inr e ↦
      let kept : find file_key h (delete_where (at file_key k) files) ≡ find file_key h files =
        first_where-delete_where (at file_key k) (at file_key h) files
          (λ f q. ground (arith, text_eq_iff f.hash h, text_eq_iff f.hash k, text_eq_iff k h)) in
      rw (e, size_of, kept) refl
]

pub receipts-delete_all :
    (candidates : List Candidate) (s : Collected)
    → (delete_all candidates s).receipts
      ≡ delete_where (λ r. contains (receipt_key r) (map candidate_key candidates)) s.receipts
unfolding delete_all delete_one contains delete_receipt
receipts-delete_all [] s = sym (delete_where_none s.receipts)
receipts-delete_all (c ∷ candidates) s =
    receipts-delete_all candidates (delete_one c s) ∙ delete_where-delete_where _ _ s.receipts

pub size_of-delete_all :
    (candidates : List Candidate) (s : Collected) (h : Text)
    → size_of (delete_all candidates s).files h ≤ size_of s.files h
unfolding delete_all delete_one delete_by_hash
size_of-delete_all [] s h = omega arith
size_of-delete_all (c ∷ candidates) s h =
    ground
      (arith, size_of-delete_all candidates (delete_one c s) h, size_of-delete c.hash h s.files)

pub deleted-delete_all :
    (candidates : List Candidate) (s : Collected)
    → (delete_all candidates s).deleted ≡ length candidates + s.deleted
unfolding delete_all delete_one
deleted-delete_all [] s = omega arith
deleted-delete_all (c ∷ candidates) s =
    grind (arith, deleted-delete_all candidates (delete_one c s))

-- Each candidate has the size of its file.
abbrev pub Sized : List File → List Candidate → Type 0
Sized files candidates = All (λ c. c.size ≡ size_of files c.hash) candidates

Sized-delete :
    (k : Text) (files : List File) (candidates : List Candidate)
    → find candidate_key k candidates ≡ none
    → Sized files candidates
    → Sized (delete_where (at file_key k) files) candidates
unfolding find first_where
Sized-delete k files [] n a = tt
Sized-delete k files (c ∷ candidates) n a = elim (Bool-cases (text_eq c.hash k)) [
  | inl e ↦ absurd (ground (arith, n, e))
  | inr e ↦
      let rest : find candidate_key k candidates ≡ none = rw e at n in
      let other : text_eq k c.hash ≡ false =
        ground (arith, text_eq_iff k c.hash, text_eq_iff c.hash k) in
      (rw (size_of-delete k c.hash files, other) a.0, Sized-delete k files candidates rest a.1)
]

freed-delete_one :
    (c : Candidate) (s : Collected)
    → c.size ≡ size_of s.files c.hash
    → (delete_one c s).freed ≡ s.freed + c.size
unfolding delete_one delete_by_hash size_of
freed-delete_one c s e = elim (Option-cases (find file_key c.hash s.files)) [
  | inl n ↦ let empty : c.size ≡ 0 = e ∙ rw (size_of, n) refl in ground (arith, n, empty)
  | inr (f, n) ↦ rw n refl
]

-- What is freed is what the candidates' files hold.
pub freed-delete_all :
    (candidates : List Candidate) (s : Collected)
    → Distinct candidate_key candidates
    → Sized s.files candidates
    → (delete_all candidates s).freed ≡ s.freed + sum_by (λ c. c.size) candidates
unfolding delete_all delete_one delete_by_hash sum_by size_of
freed-delete_all [] s d a = omega arith
freed-delete_all (c ∷ candidates) s d a =
    let rest =
      freed-delete_all candidates (delete_one c s) d.1
        (Sized-delete c.hash s.files candidates d.0 a.1) in
    rest ∙ ap (λ n. n + sum_by (λ x. x.size) candidates) (freed-delete_one c s a.0) ∙ omega arith

pub contains-unique :
    (candidates : List Candidate) (seen : List Text) (h : Text)
    → (contains h (map candidate_key (unique seen candidates)) || contains h seen)
      ≡ (contains h (map candidate_key candidates) || contains h seen)
unfolding unique contains
contains-unique [] seen h = refl
contains-unique (c ∷ candidates) seen h = elim (Bool-cases (contains c.hash seen)) [
  | inl e ↦ rw (unique, e) (ground (arith, contains-unique candidates seen h, text_eq_iff h c.hash))
  | inr e ↦ rw (unique, e) (ground (arith, contains-unique candidates (c.hash ∷ seen) h))
]

-- A hash that was seen is not among the unique ones, and no hash is there twice.
pub unique-Distinct :
    (candidates : List Candidate) (seen : List Text)
    → Distinct candidate_key (unique seen candidates)
      × ((h : Text) → contains h seen ≡ true → find candidate_key h (unique seen candidates) ≡ none)
unfolding unique contains find first_where
unique-Distinct [] seen = (tt, λ h m. refl)
unique-Distinct (c ∷ candidates) seen = elim (Bool-cases (contains c.hash seen)) [
  | inl e ↦ rw (unique, e) (unique-Distinct candidates seen)
  | inr e ↦
      let (distinct, absent) = unique-Distinct candidates (c.hash ∷ seen) in
      rw (unique, e)
        (
          (absent c.hash (rw (text_eq_refl c.hash) refl), distinct),
          λ h m. ground (arith, absent h, e, m, text_eq_iff c.hash h, text_eq_iff h c.hash),
        )
]

pub Sized-unique :
    (files : List File) (candidates : List Candidate) (seen : List Text)
    → Sized files candidates
    → Sized files (unique seen candidates)
unfolding unique
Sized-unique files [] seen a = tt
Sized-unique files (c ∷ candidates) seen a = elim (Bool-cases (contains c.hash seen)) [
  | inl e ↦ rw (unique, e) (Sized-unique files candidates seen a.1)
  | inr e ↦ rw (unique, e) (a.0, Sized-unique files candidates (c.hash ∷ seen) a.1)
]
