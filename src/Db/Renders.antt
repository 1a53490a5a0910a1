-- ===== src/Db/Renders.antt =====
-- cli/gc_renders.py: the collection of rendered images, by age and by size. The image store is the list
-- of its files; each render is one file, named by its hash.
pub mod Deleting
pub mod Budget
pub mod Candidates
use meme_mcp.Base.{
  ℕ, suc, ◌+◌, ◌-◌, ◌*◌, Bool, true, false, not, ◌&&◌, Option, none, some, List, [], ◌∷◌, ◌++◌, map,
  ltb, leb, Text, text_eq, contains, length, Result, ok, err, overflow_error, ◌>>=◌, is_some,
  if◌then◌else◌,
}
use meme_mcp.Base.Table.{delete_where}
use meme_mcp.Base.Table.Keyed.{at, find}
use meme_mcp.Base.Table.Listing.{sum_by}
use meme_mcp.Db.Receipts.{Receipt, hashes_older_than, all_hashes_oldest_first, delete_receipt}

pub record File : Type 0 where
  pub hash : Text
  pub size : ℕ

abbrev pub file_key : File → Text
file_key f = f.hash

-- `size_of`: 0 where there is no file
unfoldable pub size_of : List File → Text → ℕ
unfolding find
size_of files rendered_hash = elim (find file_key rendered_hash files) [
  | none ↦ 0
  | some f ↦ f.size
]

-- `delete_by_hash`
unfoldable pub delete_by_hash : Text → List File → Bool × List File
unfolding find delete_where
delete_by_hash rendered_hash files =
    (is_some (find file_key rendered_hash files), delete_where (at file_key rendered_hash) files)

-- A candidate, without the time, which nothing reads.
pub record Candidate : Type 0 where
  pub hash : Text
  pub size : ℕ

abbrev pub candidate_of : List File → Text → Candidate
candidate_of files h = record { hash = h; size = size_of files h }

abbrev pub day : ℕ
day = 86400000000

-- The candidates by age. Instants count from the first day that `datetime` has, and a cutoff before it
-- overflows.
unfoldable pub by_age : Option ℕ → ℕ → List Receipt → List File → Result (List Candidate)
unfolding hashes_older_than size_of
by_age none now receipts files = ok []
by_age (some ttl_days) now receipts files =
    if ltb now (ttl_days * day)
    then err overflow_error
    else ok (map (candidate_of files) (hashes_older_than (now - ttl_days * day) receipts))

-- The loop over the rows, oldest first; `total` is the size of what is left.
unfoldable pub evict : List File → ℕ → ℕ → List Text → List Candidate
unfolding size_of
evict files max_bytes total [] = []
evict files max_bytes total (h ∷ hashes) =
    let rest = evict files max_bytes (total - size_of files h) hashes in
    if leb total max_bytes then [] else candidate_of files h ∷ rest

unfoldable pub by_size : Option ℕ → List Receipt → List File → Result (List Candidate)
unfolding all_hashes_oldest_first evict sum_by
by_size none receipts files = ok []
by_size (some max_bytes) receipts files =
    all_hashes_oldest_first receipts
    >>= (λ hashes. ok (evict files max_bytes (sum_by (size_of files) hashes) hashes))

-- The loop that drops the second candidate of a hash.
unfoldable pub unique : List Text → List Candidate → List Candidate
unfolding contains
unique seen [] = []
unique seen (c ∷ candidates) = elim (contains c.hash seen) [
  | true ↦ unique seen candidates
  | false ↦ c ∷ unique (c.hash ∷ seen) candidates
]

-- The printed counts, with what is left in the two stores.
pub record Collected : Type 0 where
  pub deleted : ℕ
  pub freed : ℕ
  pub receipts : List Receipt
  pub files : List File

-- One turn of the last loop.
unfoldable pub delete_one : Candidate → Collected → Collected
unfolding delete_by_hash delete_receipt
delete_one c s =
    let (existed, files) = delete_by_hash c.hash s.files in
    record {
      deleted = suc s.deleted;
      freed = if existed then s.freed + c.size else s.freed;
      receipts = delete_receipt c.hash s.receipts;
      files = files;
    }

unfoldable pub delete_all : List Candidate → Collected → Collected
unfolding delete_one
delete_all [] s = s
delete_all (c ∷ candidates) s = delete_all candidates (delete_one c s)

-- `_gc` on its unique candidates.
unfoldable pub collect : Bool → List Candidate → List Receipt → List File → Collected
unfolding delete_all sum_by
collect true candidates receipts files = record {
  deleted = length candidates;
  freed = sum_by (λ c. c.size) candidates;
  receipts = receipts;
  files = files;
}
collect false candidates receipts files =
    delete_all candidates record { deleted = 0; freed = 0; receipts = receipts; files = files }

unfoldable pub gc_renders :
    Option ℕ → Option ℕ → Bool → ℕ → List Receipt → List File → Result Collected
unfolding by_age by_size unique collect
gc_renders ttl_days max_bytes dry_run now receipts files =
    by_age ttl_days now receipts files >>= (λ old.
      by_size max_bytes receipts files
      >>= (λ large. ok (collect dry_run (unique [] (old ++ large)) receipts files)))

-- An argument of the command line: an integer that is not negative, or one that is.
pub data Number : Type 0 where
  whole : ℕ → Number
  negative : Number

abbrev pub is_negative : Option Number → Bool
is_negative (some negative) = true
is_negative (some (whole n)) = false
is_negative none = false

abbrev pub amount : Option Number → Option ℕ
amount (some (whole n)) = some n
amount (some negative) = none
amount none = none

-- `run`: the exit code, with what was collected; nothing is, where an argument is refused.
unfoldable pub run :
    Option Number
    → Option Number
    → Bool
    → ℕ
    → List Receipt
    → List File
    → Result (ℕ × Option Collected)
unfolding gc_renders
run ttl_days max_bytes dry_run now receipts files =
    if not (is_some ttl_days) && not (is_some max_bytes)
    then ok (2, none)
    else if is_negative ttl_days
    then ok (2, none)
    else if is_negative max_bytes
    then ok (2, none)
    else gc_renders (amount ttl_days) (amount max_bytes) dry_run now receipts files
      >>= (λ done. ok (0, some done))
