-- ===== src/Sdk/Access.antt =====
-- Reading a JSON value as the code reads a dict, with what it raises: a missing key, a value of another
-- type where Python or pydantic refuses it. The conversions that pydantic makes between types, and
-- negative counts, are refused here too.
use makoto_lite_llm.Base.{ℕ, String, Option, none, some, Outcome, ok, err, if◌then◌else◌}
use makoto_lite_llm.Base.Int.{pos}
use makoto_lite_llm.Base.Outcomes.{◌>>=◌, need}
use makoto_lite_llm.Base.Text.{is_empty}
use makoto_lite_llm.Json.{Json, null, str, int, arr, obj, Items, nil, Fields, end, get, is_truthy}
use makoto_lite_llm.Sdk.{SdkError}

-- what a call may raise: an error of the SDK, or any other exception
pub data Fault : Type 0 where
  sdk_error : SdkError → Fault
  other_error : Fault

-- The functions of Python's library that the providers call: `json.dumps`, `json.loads` (`none` for
-- `JSONDecodeError`), `str` of a JSON value, `str.lower` and `str.strip`.
pub record Library : Type 0 where
  pub dumps : Json → String
  pub loads : String → Option Json
  pub show : Json → String
  pub lower : String → String
  pub strip : String → String

abbrev pub as_str : Json → Outcome Fault String
as_str (str t) = ok t
as_str _ = err other_error

abbrev pub as_count : Json → Outcome Fault ℕ
as_count (int (pos n)) = ok n
as_count _ = err other_error

abbrev pub as_fields : Json → Outcome Fault Fields
as_fields (obj d) = ok d
as_fields _ = err other_error

-- what a `for` loop goes over; an empty text or dict gives no element, other keys have no `get`
abbrev pub as_items : Json → Outcome Fault Items
as_items (arr xs) = ok xs
as_items (obj end) = ok nil
as_items (str t) = if is_empty t then ok nil else err other_error
as_items _ = err other_error

-- a field of type `str | None`
abbrev pub optional_str : Option Json → Outcome Fault (Option String)
optional_str none = ok none
optional_str (some null) = ok none
optional_str (some (str t)) = ok (some t)
optional_str (some _) = err other_error

-- `d.get(k, default)` and `d[k]`, as a text or as a count
abbrev pub str_or : String → String → Fields → Outcome Fault String
str_or default k d = elim (get k d) [ none ↦ ok default | some v ↦ as_str v ]

abbrev pub count_or_zero : String → Fields → Outcome Fault ℕ
count_or_zero k d = elim (get k d) [ none ↦ ok 0 | some v ↦ as_count v ]

abbrev pub str_at : String → Fields → Outcome Fault String
str_at k d = do v ← need other_error (get k d); as_str v

abbrev pub count_at : String → Fields → Outcome Fault ℕ
count_at k d = do v ← need other_error (get k d); as_count v

abbrev pub fields_at : String → Fields → Outcome Fault Fields
fields_at k d = do v ← need other_error (get k d); as_fields v

-- `d.get(k) or {}`
abbrev pub fields_or_empty : String → Fields → Outcome Fault Fields
fields_or_empty k d = elim (get k d) [
  | none ↦ ok end
  | some v ↦ if is_truthy v then as_fields v else ok end
]

-- `d.get(k) or []`
abbrev pub items_or_empty : String → Fields → Outcome Fault Items
items_or_empty k d = elim (get k d) [
  | none ↦ ok nil
  | some v ↦ if is_truthy v then as_items v else ok nil
]
