-- ===== src/Base/Table/SingleUse.antt =====
-- Tables of rows that are used once: a row is inserted, and later marked as consumed.
use mathlib.Core.Path.{◌≡◌, refl}
use mathlib.Core.Bool.{Bool, true, false, not, ◌&&◌}
use mathlib.Core.Option.{none, some}
use mathlib.Core.List.{List, ◌∷◌}
use native.Mathlib.Omega.{arith}
use meme_mcp.Base.Tests.{ltb, if◌then◌else◌}
use meme_mcp.Base.Texts.{Text, text_eq, text_eq_iff}
use meme_mcp.Base.Lists.{All, All-map}
use meme_mcp.Base.Table.{
  update_where, count_where, count_where_zero, count_where-some, All-update_where,
  All-update_where_all,
}
use meme_mcp.Base.Table.Keyed.{find, find-All, find-key, find-cons, find-update_where}

module _ {ℓ} {A : Type ℓ} (key : A → Text) (consumed : A → Bool) where
  -- `WHERE key = ? AND consumed_at IS NULL`
  abbrev pub mine : Text → A → Bool
  mine digest r = text_eq (key r) digest && not (consumed r)

  -- A row with this key is there, and every such row is consumed.
  pub record IsSpent (digest : Text) (t : List A) : Type ℓ where
    pub row : A
    pub stored : find key digest t ≡ some row
    pub used : All (λ r. key r ≡ digest → consumed r ≡ true) t

  -- What a call does to the table: nothing, or an insertion, or the consumption of a row.
  pub data Change (spend : A → A) (t u : List A) : Type ℓ where
    same : u ≡ t → Change spend t u
    inserted : (r : A) → find key (key r) t ≡ none → u ≡ r ∷ t → Change spend t u
    consumed_at : (digest : Text) → u ≡ update_where (mine digest) spend t → Change spend t u

  pub IsSpent-row :
      (digest : Text) (t : List A) (spent : IsSpent digest t) → consumed spent.row ≡ true
  IsSpent-row digest t spent =
      find-All key (λ r. key r ≡ digest → consumed r ≡ true) digest t spent.stored spent.used
        (find-key key digest t spent.stored)

  -- A spent row is not consumed again.
  pub IsSpent-count :
      (digest : Text) (t : List A) → IsSpent digest t → ltb 0 (count_where (mine digest) t) ≡ false
  IsSpent-count digest t spent = count_where_zero (mine digest) t (
      All-map (λ r. key r ≡ digest → consumed r ≡ true) (λ r. mine digest r ≡ false) t
        (λ r h. ground (arith, text_eq_iff (key r) digest)) spent.used)

  module _ (spend : A → A) (keeps : (r : A) → key (spend r) ≡ key r)
      (uses : (r : A) → consumed (spend r) ≡ true) where
    -- A consumption that touches a row leaves it spent.
    pub consume-IsSpent :
        (digest : Text) (t : List A)
        → ltb 0 (count_where (mine digest) t) ≡ true
        → IsSpent digest (update_where (mine digest) spend t)
    unfolding find
    consume-IsSpent digest t h =
        let (r, f) =
          count_where-some (mine digest) (λ x. text_eq (key x) digest) t (λ x e. ground arith) h in
        record {
          row = if mine digest r then spend r else r;
          stored = rw (find-update_where key (mine digest) spend keeps digest t, f) refl;
          used =
              All-update_where_all (λ x. key x ≡ digest → consumed x ≡ true) (mine digest) spend t
                (λ x p e. uses x) (λ x p e. ground (arith, text_eq_iff (key x) digest));
        }

    pub Change-IsSpent :
        {digest : Text} {t u : List A} → Change spend t u → IsSpent digest t → IsSpent digest u
    Change-IsSpent (same e) spent = rw e spent
    Change-IsSpent {digest} {t} (inserted r new e) spent = rw e (record {
      row = spent.row;
      stored = rw (find-cons key) (ground (arith, text_eq_iff (key r) digest, spent.stored, other));
      used = (λ q. absurd (other q), spent.used);
    })
      where
        other : ¬ (key r ≡ digest)
        other q = let f : find key digest t ≡ none = rw q at new in cc (f, spent.stored)
    Change-IsSpent {digest} {t} (consumed_at d e) spent = rw e (record {
      row = if mine d spent.row then spend spent.row else spent.row;
      stored = rw (find-update_where key (mine d) spend keeps digest t, spent.stored) refl;
      used =
          All-update_where (λ r. key r ≡ digest → consumed r ≡ true) (mine d) spend t
            (λ r p h q. uses r) spent.used;
    })
