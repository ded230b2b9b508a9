-- ===== src/Sdk/Stream/Parsing.antt =====
-- The parser of a stream's lines against the printing of events.
use Prim.Native.String.{◌++◌ as cat}
use text.Mathlib.TextLemmas.{cons-append, nil-append}
use text.Mathlib.TextPositions.{starts_with-append}
use makoto_lite_llm.Base.{
  String, ◌≡◌, refl, ap, false, some, List, [], ◌∷◌, ◌++◌, All, ◌==◌, string_eq,
}
use makoto_lite_llm.Base.Text.{skip_chars}
use makoto_lite_llm.Json.{Json}
use makoto_lite_llm.Sdk.Access.{Library}
use makoto_lite_llm.Sdk.Stream.{Ending, finished, payload_of, parse_lines}

skip_chars-data : (t : String) → skip_chars 6 (cat "data: " t) ≡ t
unfolding skip_chars
skip_chars-data t =
    rw (cons-append, cons-append, cons-append, cons-append, cons-append, cons-append, nil-append)

module _ (library : Library) where
  payload_of-data : (t : String) → payload_of library (cat "data: " t) ≡ library.strip t
  payload_of-data t = ap library.strip (skip_chars-data t)

  payload_of_end : payload_of library "data: [DONE]" ≡ library.strip "[DONE]"
  unfolding skip_chars
  payload_of_end = refl

  -- A value that is read back from its text, which has no space around it and is not the mark of the end.
  abbrev pub IsReadable : Json → Type 0
  IsReadable v =
      (library.strip (library.dumps v) ≡ library.dumps v)
      × ((library.dumps v == "[DONE]") ≡ false)
      × (library.loads (library.dumps v) ≡ some v)

  -- the lines of the events of the values, each with the empty line behind it
  abbrev pub event_lines : List Json → List String
  event_lines [] = []
  event_lines (v ∷ vs) = cat "data: " (library.dumps v) ∷ "" ∷ event_lines vs

  -- The lines of the events of readable values, the line of the end, and any lines behind it are parsed as
  -- these values, and the end of the parse is a proper one, however the lines end.
  pub parse_lines-event_lines :
      (vs : List Json) (rest : List String) (ending : Ending)
      → All IsReadable vs
      → library.strip "[DONE]" ≡ "[DONE]"
      → parse_lines library (event_lines vs ++ "data: [DONE]" ∷ rest) ending ≡ (vs, finished)
  unfolding parse_lines
  parse_lines-event_lines [] rest ending readable mark = rw (payload_of_end, mark) refl
  parse_lines-event_lines (v ∷ vs) rest ending ((stripped, other, loaded), readable) mark =
      rw
        (
          starts_with-append "data: " (library.dumps v),
          payload_of-data (library.dumps v),
          stripped,
          other,
          loaded,
          parse_lines-event_lines vs rest ending readable mark,
        )
        refl
