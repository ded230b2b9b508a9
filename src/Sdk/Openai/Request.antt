-- ===== src/Sdk/Openai/Request.antt =====
-- What of a call's parameters reaches OpenAI.
use makoto_lite_llm.Base.{
  String, ◌≡◌, refl, ap, ◌∙◌, inl, inr, Bool, true, false, ◌&&◌, not, Option, none, some, List, map,
  ◌==◌, string_eq, eq_iff, arith, Bool-cases, if◌then◌else◌,
}
use makoto_lite_llm.Json.{Json, str, arr, obj, Fields, end, field, get, put, from_list, is_null}
use makoto_lite_llm.Json.Lookup.{get-put}
use makoto_lite_llm.Sdk.Openai.{forwarded_params, is_listed, forward, transform_request}

-- a dict: no key is there twice
abbrev pub IsDict : Fields → Type 0
IsDict end = Unit
IsDict (field k v d) = (get k d ≡ none) × IsDict d

-- a value, if it is there and not null; or else what was there
abbrev pub non_null_or : Option Json → Option Json → Option Json
non_null_or none old = old
non_null_or (some v) old = if is_null v then old else some v

get-put_if :
    (b : Bool) (j k : String) (v : Json) (d : Fields)
    → get k (if b then put j v d else d) ≡ (if b && j == k then some v else get k d)
get-put_if true j k v d = get-put k j v d
get-put_if false j k v d = refl

-- the value for a key after one more parameter and after the rest
merge_same :
    (listed : Bool) (v : Json) (old : Option Json)
    → (if listed
        then non_null_or none (if listed && not (is_null v) && true then some v else old)
        else if listed && not (is_null v) && true
        then some v
        else old)
      ≡ (if listed then non_null_or (some v) old else old)
merge_same true v old = elim (Bool-cases (is_null v)) [ inl e ↦ rw e refl | inr e ↦ rw e refl ]
merge_same false v old = refl

and_false : (b : Bool) → (b && false) ≡ false
and_false true = refl
and_false false = refl

get-forward :
    (names : List String) (k : String) (body params : Fields)
    → IsDict params
    → get k (forward names body params)
      ≡ (if is_listed k names then non_null_or (get k params) (get k body) else get k body)
unfolding forward
get-forward names k body end dict = ground arith
get-forward names k body (field j v params) (once, dict) =
    let sent = is_listed j names && not (is_null v) in
    get-forward names k (if sent then put j v body else body) params dict
    ∙ elim (Bool-cases (j == k)) [
      | inl same ↦
          let jk = (eq_iff j k).0 same in
          rw (get-put_if sent j k v body, same, ← jk, once)
            (merge_same (is_listed j names) v (get j body))
      | inr other ↦ rw (get-put_if sent j k v body, other, and_false sent) refl
    ]

-- the two fields that every request has
abbrev pub base_fields : String → List Fields → Fields
base_fields model messages =
    field "model" (str model) (field "messages" (arr (from_list (map obj messages))) end)

differs :
    (j k : String)
    → is_listed k forwarded_params ≡ true
    → is_listed j forwarded_params ≡ false
    → (j == k) ≡ false
differs j k listed other = elim (Bool-cases (j == k)) [
  | inl same ↦ cc (ap (λ t. is_listed t forwarded_params) ((eq_iff j k).0 same), listed, other)
  | inr e ↦ e
]

-- If no parameter is given twice, a key of the request to OpenAI has this value: for the 17 parameters of the
-- allowlist that of the parameter, if it is given and not null; for "model" and "messages" the call's own,
-- whatever the parameters say; and any other key is not there.
pub transform_request_forwards :
    (model : String) (messages : List Fields) (params : Fields) (k : String)
    → IsDict params
    → get k (transform_request model messages params) ≡ (
        if is_listed k forwarded_params
        then non_null_or (get k params) none
        else get k (base_fields model messages))
unfolding transform_request
transform_request_forwards model messages params k dict =
    get-forward forwarded_params k (base_fields model messages) params dict
    ∙ elim (Bool-cases (is_listed k forwarded_params)) [
      | inl listed ↦
          rw (listed, differs "model" k listed refl, differs "messages" k listed refl) refl
      | inr other ↦ rw other refl
    ]
