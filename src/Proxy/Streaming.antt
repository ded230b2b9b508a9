-- ===== src/Proxy/Streaming.antt =====
-- The row of a stream: what the generator books when the chunks end, when they fail, and when the
-- client leaves.
use makoto_lite_llm.Base.{
  ℕ, String, ◌≡◌, refl, inl, inr, Bool, false, Option, none, some, List, [], ◌∷◌, ◌++◌, any, not,
  ap, ◌∙◌, Option-cases, Bool-cases, ◌||◌, if◌then◌else◌, arith, ◌==◌, string_eq, is_some,
}
use makoto_lite_llm.Base.Text.{is_empty}
use makoto_lite_llm.Dependencies.{KeyCache}
use makoto_lite_llm.Float.{Float}
use makoto_lite_llm.Jwt.{Crypto}
use makoto_lite_llm.Models.{User, ApiKey}
use makoto_lite_llm.Proxy.{ChatRequest, Draw, ProxyState, spend_row}
use makoto_lite_llm.Proxy.Booked.{IsRowOf, spend_row-IsRowOf}
use makoto_lite_llm.Proxy.Chat.{
  World, stream_row, sse_generator, tally, until_closed, status_of, first_reason, last_given, Tally,
}
use makoto_lite_llm.Sdk.{Resolved}
use makoto_lite_llm.Sdk.Access.{Library}
use makoto_lite_llm.Sdk.Cost.{calculate_cost}
use makoto_lite_llm.Sdk.Completion.{Request, provider_of}
use makoto_lite_llm.Sdk.Stream.{Iterator, read_stream}
use makoto_lite_llm.Sdk.Types.{Usage, ModelResponseStream, StreamChoice}
use makoto_lite_llm.Spend.Ledger.{History, IsLedger, log_spend-IsLedger}

-- the first choice has a reason to finish, which is not the empty text
abbrev pub has_reason : {F : Type 0} → ModelResponseStream F → Bool
has_reason c = elim c.choices [
  | [] ↦ false
  | choice ∷ rest ↦ elim choice.finish_reason [ none ↦ false | some t ↦ not (is_empty t) ]
]

-- the usage of the last chunk that has one
abbrev pub last_usage : {F : Type 0} → List (ModelResponseStream F) → Option (Usage F)
last_usage [] = none
last_usage (c ∷ cs) = elim (last_usage cs) [ none ↦ c.usage | some u ↦ some u ]

reason_of_first :
    (choices : List StreamChoice)
    → is_some (first_reason choices none) ≡ elim choices [
      | [] ↦ false
      | choice ∷ rest ↦ elim choice.finish_reason [ none ↦ false | some t ↦ not (is_empty t) ]
    ]
reason_of_first [] = refl
reason_of_first (c ∷ cs) = elim (Option-cases c.finish_reason) [
  | inl missing ↦ rw missing refl
  | inr (t, e) ↦ elim (Bool-cases (is_empty t)) [
    | inl empty ↦ rw (e, empty) refl
    | inr text ↦ rw (e, text) refl
  ]
]

reason_some :
    (choices : List StreamChoice) (old : Option String)
    → is_some (first_reason choices old) ≡ (is_some (first_reason choices none) || is_some old)
reason_some [] old = refl
reason_some (c ∷ cs) old = elim (Option-cases c.finish_reason) [
  | inl missing ↦ rw missing refl
  | inr (t, e) ↦ elim (Bool-cases (is_empty t)) [
    | inl empty ↦ rw (e, empty) refl
    | inr text ↦ rw (e, text) refl
  ]
]

module _ {F : Type 0} where
  tally_reason :
      (seen : Tally F) (cs : List (ModelResponseStream F))
      → is_some (tally seen cs).1 ≡ (any has_reason cs || is_some seen.1)
  unfolding tally
  tally_reason seen [] = refl
  tally_reason (usage, reason) (c ∷ cs) =
      rw
        (
          tally_reason (last_given c.usage usage, first_reason c.choices reason) cs,
          reason_some c.choices reason,
          reason_of_first c.choices,
        )
        (ground arith)

  last_given_twice :
      (a b c : Option (Usage F)) → last_given a (last_given b c) ≡ last_given (last_given a b) c
  last_given_twice none b c = refl
  last_given_twice (some a) b c = refl

  last_given-none : (a : Option (Usage F)) → last_given a none ≡ a
  last_given-none none = refl
  last_given-none (some a) = refl

  given_or : (a b : Option (Usage F)) → last_given a b ≡ elim a [ none ↦ b | some u ↦ some u ]
  given_or none b = refl
  given_or (some a) b = refl

  tally_usage :
      (seen : Tally F) (cs : List (ModelResponseStream F))
      → (tally seen cs).0 ≡ last_given (last_usage cs) seen.0
  unfolding tally
  tally_usage seen [] = refl
  tally_usage (usage, reason) (c ∷ cs) =
      rw (tally_usage (last_given c.usage usage, first_reason c.choices reason) cs) (
        last_given_twice (last_usage cs) c.usage usage
        ∙ ap (λ o. last_given o usage) (given_or (last_usage cs) c.usage))

module _ (float : Float) (crypto : Crypto) (library : Library) (cache : KeyCache float.Carrier)
    (world : World float.Carrier) where
  open float use {Carrier}

  -- the iterator that the generator goes over
  abbrev pub chunks_of : Draw → Resolved × Request → Iterator (ModelResponseStream Carrier)
  chunks_of draw (resolved, upstream) =
      read_stream library draw.fresh_id draw.created (provider_of resolved.provider_name)
        resolved.bare_model (world.open_stream upstream)

  -- If the log and the daily tables agree on a history and the id of the request is new, then the generator
  -- of a stream, whatever the upstream sends, however the chunks end and wherever the client leaves, sends one
  -- request upstream, and afterwards log and tables agree, all of it committed, on the history with one more
  -- row: that of the chunks up to the last one that was yielded.
  pub sse_generator-IsLedger :
      (draw : Draw) (request : ChatRequest) (user : User Carrier) (key : Option (ApiKey Carrier))
      (wrapper : Resolved × Request) (closed : Option ℕ) (s : ProxyState cache) (h : History float)
      → IsLedger float s.auth.session h
      → any (λ l. l.request_id == draw.request_id) s.auth.session.current.spend_logs ≡ false
      → let s' =
          (sse_generator float crypto library cache world draw request user key wrapper closed
            s).1 in
        let seen = tally (none, none) (until_closed closed (chunks_of draw wrapper).0) in
        (s'.requests ≡ s.requests ++ wrapper.1 ∷ [])
        × IsLedger float s'.auth.session (
            h
            ++ (
              draw.log_day,
              stream_row float crypto library cache world draw request user key seen,
            )
              ∷ [])
  unfolding sse_generator stream_row spend_row
  sse_generator-IsLedger draw request user key wrapper closed s h ledger fresh =
      let seen = tally (none, none) (until_closed closed (chunks_of draw wrapper).0) in
      let log = stream_row float crypto library cache world draw request user key seen in
      let (logged, ledger') =
        log_spend-IsLedger float draw.log_day log s.auth.session h ledger fresh in
      rw logged (refl, ledger')

  status_of_if :
      (reason : Option String)
      → status_of reason ≡ (if is_some reason then "completed" else "partial")
  status_of_if none = refl
  status_of_if (some t) = refl

  module _ (draw : Draw) (request : ChatRequest) (user : User Carrier)
      (key : Option (ApiKey Carrier)) (cs : List (ModelResponseStream Carrier)) where
    -- the cost of a usage by the table of prices
    abbrev pub price_of : Option (Usage Carrier) → Option Carrier
    price_of none = none
    price_of (some u) = calculate_cost float world.prices request.model u

    -- The row of a stream is booked like that of a response, with the usage of the last chunk that has one, its cost
    -- by the table of prices, and the status "completed" if some chunk's first choice has a reason to finish, and
    -- "partial" if none has; without a usage its tokens and its spend are 0.
    pub stream_row-tally :
        IsRowOf float draw request user key
          (last_usage cs)
          (price_of (last_usage cs))
          (if any has_reason cs then "completed" else "partial")
          (stream_row float crypto library cache world draw request user key
            (tally (none, none) cs))
    unfolding stream_row
    stream_row-tally =
        let seen = tally (none, none) cs in
        let same_usage : seen.0 ≡ last_usage cs =
          tally_usage (none, none) cs ∙ last_given-none (last_usage cs) in
        let same_status : status_of seen.1
            ≡ (if any has_reason cs then "completed" else "partial") =
          rw (status_of_if seen.1, tally_reason (none, none) cs) (ground arith) in
        rw (same_usage, same_status)
          (spend_row-IsRowOf float draw request user key (last_usage cs) _ _)
