-- ===== src/Json.antt =====
-- The values of Python's `json` module: the contents of JSON columns, request bodies and responses; and
-- the operations of `dict` on them. A dict has each key once, in the order of insertion.
pub mod Lookup
use makoto_lite_llm.Base.{
  ℕ, String, Bool, true, false, not, ◌&&◌, Option, none, some, List, [], ◌∷◌, ◌==◌, string_eq,
  nat_eq, is_some, if◌then◌else◌,
}
use makoto_lite_llm.Base.Int.{ℤ, pos, negsuc}
use makoto_lite_llm.Base.Text.{is_empty}

-- A number with a fraction is kept as its text.
mutual
  pub data Json : Type 0 where
    null : Json
    boolean : Bool → Json
    int : ℤ → Json
    float : String → Json
    str : String → Json
    arr : Items → Json
    obj : Fields → Json

  pub data Items : Type 0 where
    nil : Items
    cons : Json → Items → Items

  pub data Fields : Type 0 where
    end : Fields
    field : String → Json → Fields → Fields

abbrev pub to_list : Items → List Json
to_list nil = []
to_list (cons x xs) = x ∷ to_list xs

abbrev pub from_list : List Json → Items
from_list [] = nil
from_list (x ∷ xs) = cons x (from_list xs)

-- `d.get(k)`
abbrev pub get : String → Fields → Option Json
get k end = none
get k (field j v d) = if j == k then some v else get k d

-- `d[k] = v`
unfoldable pub put : String → Json → Fields → Fields
put k v end = field k v end
put k v (field j w d) = if j == k then field j v d else field j w (put k v d)

-- `d.update(e)`
unfoldable pub update : Fields → Fields → Fields
unfolding put
update d end = d
update d (field k v e) = update (put k v d) e

-- `d.pop(k, None)` without its value
unfoldable pub delete : String → Fields → Fields
delete k end = end
delete k (field j v d) = if j == k then delete k d else field j v (delete k d)

-- `bool(value)`; a zero of a float is written `0.0` or `-0.0`
abbrev pub is_truthy : Json → Bool
is_truthy null = false
is_truthy (boolean b) = b
is_truthy (int (pos n)) = not (n == 0)
is_truthy (int (negsuc n)) = true
is_truthy (float t) = not (t == "0.0") && not (t == "-0.0")
is_truthy (str t) = not (is_empty t)
is_truthy (arr nil) = false
is_truthy (arr (cons x xs)) = true
is_truthy (obj end) = false
is_truthy (obj (field k v d)) = true

abbrev pub is_null : Json → Bool
is_null null = true
is_null _ = false
