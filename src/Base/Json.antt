-- ===== src/Base/Json.antt =====
-- The values of Python's json module: `dict[str, Any]` as its entries in their order.
use mathlib.Core.Path.{◌≡◌, refl}
use mathlib.Core.Bool.{Bool, false, ◌||◌}
use native.Mathlib.Omega.{arith}
use meme_mcp.Base.Tests.{if◌then◌else◌}
use meme_mcp.Base.Texts.{Text, text_eq, text_eq_iff}

-- A number stands as its literal.
mutual
  pub data Json : Type 0 where
    null : Json
    boolean : Bool → Json
    number : Text → Json
    string : Text → Json
    array : Items → Json
    object : Dict → Json

  pub data Items : Type 0 where
    no_items : Items
    item : Json → Items → Items

  pub data Dict : Type 0 where
    no_entries : Dict
    entry : Text → Json → Dict → Dict

-- `d.get(key)`, with `null` for Python's `None`
unfoldable pub get : Text → Dict → Json
get key no_entries = null
get key (entry k v d) = let rest = get key d in if text_eq k key then v else rest

-- `key in d`
unfoldable pub has_key : Text → Dict → Bool
has_key key no_entries = false
has_key key (entry k v d) = text_eq k key || has_key key d

-- `d[key] = value`
unfoldable pub set : Text → Json → Dict → Dict
set key value no_entries = entry key value no_entries
set key value (entry k v d) =
    let rest = set key value d in if text_eq k key then entry k value d else entry k v rest

-- `d.pop(key, None)`
unfoldable pub pop : Text → Dict → Dict
pop key no_entries = no_entries
pop key (entry k v d) = let rest = pop key d in if text_eq k key then d else entry k v rest

-- No key stands twice: what every dict satisfies.
abbrev pub DistinctKeys : Dict → Type 0
DistinctKeys no_entries = Unit
DistinctKeys (entry k v d) = (has_key k d ≡ false) × DistinctKeys d

pub get-set :
    (key k : Text) (v : Json) (d : Dict)
    → get key (set k v d) ≡ (if text_eq k key then v else get key d)
unfolding get set
get-set key k v no_entries = refl
get-set key k v (entry x w d) =
    ground (arith, get-set key k v d, text_eq_iff k key, text_eq_iff x key, text_eq_iff x k)

pub has_key-set :
    (key k : Text) (v : Json) (d : Dict)
    → has_key key (set k v d) ≡ (text_eq k key || has_key key d)
unfolding has_key set
has_key-set key k v no_entries = refl
has_key-set key k v (entry x w d) =
    ground (arith, has_key-set key k v d, text_eq_iff k key, text_eq_iff x key, text_eq_iff x k)

pub get-absent : (key : Text) (d : Dict) → has_key key d ≡ false → get key d ≡ null
unfolding get has_key
get-absent key no_entries h = refl
get-absent key (entry k v d) h = ground (arith, get-absent key d)

pub get-pop :
    (key k : Text) (d : Dict)
    → DistinctKeys d
    → get key (pop k d) ≡ (if text_eq k key then null else get key d)
unfolding get pop
get-pop key k no_entries h = ground arith
get-pop key k (entry x w d) h = ground (
  arith,
  get-pop key k d h.1,
  get-absent x d h.0,
  text_eq_iff k key,
  text_eq_iff x key,
  text_eq_iff x k,
)
