-- ===== src/Json/Lookup.antt =====
-- What `get` finds after a change of a dict.
use makoto_lite_llm.Base.{
  String, ◌≡◌, refl, true, none, some, ◌==◌, string_eq, eq_iff, arith, if◌then◌else◌, is_some, ◌⊎◌,
  inl, inr,
}
use makoto_lite_llm.Json.{Json, Fields, end, field, get, put, update, delete}

pub get-put :
    (k j : String) (v : Json) (d : Fields)
    → get k (put j v d) ≡ (if j == k then some v else get k d)
unfolding put
get-put k j v end = refl
get-put k j v (field i w d) = ground (arith, eq_iff j k, eq_iff i j, eq_iff i k, get-put k j v d)

pub get-delete :
    (k j : String) (d : Fields) → get k (delete j d) ≡ (if j == k then none else get k d)
unfolding delete
get-delete k j end = ground arith
get-delete k j (field i w d) = ground (arith, eq_iff j k, eq_iff i j, eq_iff i k, get-delete k j d)

-- A key that the second dict does not have keeps its value.
pub get-update_other : (k : String) (d e : Fields) → get k e ≡ none → get k (update d e) ≡ get k d
unfolding update
get-update_other k d end h = refl
get-update_other k d (field j v e) h =
    ground (arith, eq_iff j k, get-put k j v d, get-update_other k (put j v d) e)

-- A value after the update is of the second dict, or else of the first.
pub get-update_either :
    (k : String) (d e : Fields) {v : Json}
    → get k (update d e) ≡ some v
    → (is_some (get k e) ≡ true) ⊎ (get k d ≡ some v)
unfolding update
get-update_either k d end h = inr h
get-update_either k d (field j w e) h = elim (get-update_either k (put j w d) e h) [
  | inl later ↦ inl (ground (arith, later))
  | inr earlier ↦ ground (arith, get-put k j w d)
]
