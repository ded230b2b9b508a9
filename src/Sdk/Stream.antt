-- ===== src/Sdk/Stream.antt =====
-- Streams: `LLMHttpClient.post_stream` of src/app/sdk/http_client.py, and `StreamWrapper` of
-- src/app/sdk/types.py. What httpx answers is a status, the text of the body, its lines, and how the
-- lines end; an iterator is the list of what it yields with its ending.
pub mod Parsing
use text.Mathlib.Text.{starts_with}
use makoto_lite_llm.Base.{
  ℕ, String, Option, none, some, List, [], ◌∷◌, Outcome, ok, err, leb, or_else, ◌==◌, string_eq,
  if◌then◌else◌,
}
use makoto_lite_llm.Base.Outcomes.{◌>>=◌}
use makoto_lite_llm.Base.Text.{skip_chars}
use makoto_lite_llm.Json.{Json, str, obj, end, field}
use makoto_lite_llm.Sdk.{SdkError}
use makoto_lite_llm.Sdk.Access.{Fault, sdk_error, Library, as_fields}
use makoto_lite_llm.Sdk.Completion.{Provider, get_error_class, transform_stream_chunk}
use makoto_lite_llm.Sdk.Types.{ModelResponseStream}

pub data Ending : Type 0 where
  finished : Ending
  failed : Fault → Ending

pub record StreamReply : Type 0 where
  pub status_code : ℕ
  pub content : String
  pub lines : List String
  pub ending : Ending

-- what an iterator yields, and how it ends
abbrev pub Iterator : Type 0 → Type 0
Iterator A = List A × Ending

abbrev pub yield_first : {A : Type 0} → A → Iterator A → Iterator A
yield_first a (rest, ending) = (a ∷ rest, ending)

module _ (library : Library) where
  -- the payload of a line
  abbrev pub payload_of : String → String
  payload_of line = library.strip (skip_chars 6 line)

  -- the loop over the lines
  unfoldable pub parse_lines : List String → Ending → Iterator Json
  parse_lines [] ending = ([], ending)
  parse_lines (line ∷ lines) ending =
      let rest = parse_lines lines ending in
      if starts_with line "data: "
      then if payload_of line == "[DONE]"
        then ([], finished)
        else elim (library.loads (payload_of line)) [ none ↦ rest | some v ↦ yield_first v rest ]
      else rest

  -- the body of an error, or that no JSON text as its message
  abbrev error_body : String → Json
  error_body content =
      or_else (library.loads content)
        (obj (field "error" (obj (field "message" (str content) end)) end))

  -- `raise self._provider.get_error_class(e.status_code, e.body)`
  abbrev raised : Outcome Fault SdkError → Ending
  raised (ok e) = failed (sdk_error e)
  raised (err fault) = failed fault

  abbrev stream_error : Provider → ℕ → Json → Outcome Fault SdkError
  stream_error provider status body = do
    fields ← as_fields body
    get_error_class library provider status fields

  module _ {F : Type 0} (fresh_id : String) (now : ℕ) (provider : Provider) (model : String) where
    abbrev pub translate : Json → Outcome Fault (Option (ModelResponseStream F))
    translate chunk = do
      fields ← as_fields chunk
      transform_stream_chunk provider fresh_id now model fields

    -- one chunk before the others
    abbrev pub step :
        Outcome Fault (Option (ModelResponseStream F))
        → Iterator (ModelResponseStream F)
        → Iterator (ModelResponseStream F)
    step (err fault) rest = ([], failed fault)
    step (ok none) rest = rest
    step (ok (some c)) rest = yield_first c rest

    -- `__anext__` until the end
    unfoldable pub iterate : List Json → Ending → Iterator (ModelResponseStream F)
    iterate [] ending = ([], ending)
    iterate (chunk ∷ chunks) ending =
        let rest = iterate chunks ending in step (translate chunk) rest

    -- the wrapper over what `post_stream` makes of the answer
    unfoldable pub read_stream : StreamReply → Iterator (ModelResponseStream F)
    unfolding parse_lines iterate
    read_stream reply =
        if leb 400 reply.status_code
        then ([], raised (stream_error provider reply.status_code (error_body reply.content)))
        else (let (chunks, ending) = parse_lines reply.lines reply.ending in iterate chunks ending)
