-- ===== src/Sdk/Anthropic/Request.antt =====
-- What of a call's messages and parameters reaches Anthropic.
use mathlib.Core.List.{append-nil, append_assoc}
use makoto_lite_llm.Base.{
  String, ◌≡◌, refl, sym, ap, ◌∙◌, inl, inr, true, false, not, Option, none, some, List, [], ◌∷◌,
  ◌++◌, keep, ◌==◌, string_eq, eq_iff, Bool-cases, if◌then◌else◌, ok,
}
use makoto_lite_llm.Base.Outcomes.{chain-ok, ok_injective}
use makoto_lite_llm.Json.{Json, Fields, end, field, get, put, update, delete, is_null, is_truthy}
use makoto_lite_llm.Json.Lookup.{get-put, get-delete, get-update_other}
use makoto_lite_llm.Sdk.Anthropic.{
  forwarded_params, Parts, is_system, text_content, walk, join_if_any, extract_system_messages,
  stop_sequences, translate_tools, translate_tool_choice, put_if, translate_param, allowlist,
  max_tokens_of, put_system, transform_request,
}
use makoto_lite_llm.Sdk.Openai.{is_listed}
use makoto_lite_llm.Sdk.Openai.Request.{base_fields}

-- the texts of all system messages, in order
abbrev pub system_texts : List Fields → List String
system_texts [] = []
system_texts (m ∷ messages) =
    if is_system m
    then text_content (get "content" m) ++ system_texts messages
    else system_texts messages

walk-append :
    (parts : Parts) (messages : List Fields)
    → walk parts messages
      ≡ (parts.0 ++ system_texts messages, parts.1 ++ keep (λ m. not (is_system m)) messages)
unfolding walk
walk-append parts [] = rw (append-nil, append-nil) refl
walk-append (texts, rest) (m ∷ messages) = elim (Bool-cases (is_system m)) [
  | inl system ↦
      rw
        (system, walk-append (texts ++ text_content (get "content" m), rest) messages, append_assoc)
        refl
  | inr other ↦ rw (other, walk-append (texts, rest ++ m ∷ []) messages, append_assoc) refl
]

-- The messages split into two: the texts of the system messages, joined, if there is one, and all the
-- other messages, in their order.
pub extract_system_messages_split :
    (messages : List Fields)
    → extract_system_messages messages
      ≡ (join_if_any (system_texts messages), keep (λ m. not (is_system m)) messages)
unfolding extract_system_messages
extract_system_messages_split messages = rw (walk-append ([], []) messages) refl

module _ (k : String) (hidden : is_listed k forwarded_params ≡ false) where
  put_listed :
      (j : String) (v : Json) (d : Fields)
      → is_listed j forwarded_params ≡ true
      → get k d ≡ none
      → get k (put j v d) ≡ none
  put_listed j v d listed absent = elim (Bool-cases (j == k)) [
    | inl same ↦ cc (ap (λ t. is_listed t forwarded_params) ((eq_iff j k).0 same), listed, hidden)
    | inr other ↦ rw (get-put k j v d, other) absent
  ]

  put_if_listed :
      (choice : Option Json) (d : Fields) → get k d ≡ none → get k (put_if choice d) ≡ none
  unfolding put_if
  put_if_listed none d absent = absent
  put_if_listed (some v) d absent = put_listed "tool_choice" v d refl absent

  translate_param_hides :
      (d : Fields) (j : String) (v : Json) {d' : Fields}
      → get k d ≡ none
      → translate_param d j v ≡ ok d'
      → get k d' ≡ none
  unfolding translate_param
  translate_param_hides d j v absent h = elim (Bool-cases (is_null v)) [
    | inl missing ↦ rw (← ok_injective (rw missing at h)) absent
    | inr given ↦ elim (Bool-cases (j == "stop")) [
      | inl stop ↦
          let (seqs, _, h') =
            chain-ok (stop_sequences v) (λ seqs. ok (put "stop_sequences" seqs d))
              (rw (given, stop) at h) in
          rw (← ok_injective h') (put_listed "stop_sequences" seqs d refl absent)
      | inr stop ↦ elim (Bool-cases (j == "tools")) [
        | inl tools ↦
            let (ts, _, h') =
              chain-ok (translate_tools v) (λ ts. ok (put "tools" ts d))
                (rw (given, stop, tools) at h) in
            rw (← ok_injective h') (put_listed "tools" ts d refl absent)
        | inr tools ↦ elim (Bool-cases (j == "tool_choice")) [
          | inl choice ↦
              let (c, _, h') =
                chain-ok (translate_tool_choice v) (λ c. ok (put_if c d))
                  (rw (given, stop, tools, choice) at h) in
              rw (← ok_injective h') (put_if_listed c d absent)
          | inr choice ↦ elim (Bool-cases (is_listed j forwarded_params)) [
            | inl listed ↦
                rw (← ok_injective (rw (given, stop, tools, choice, listed) at h))
                  (put_listed j v d listed absent)
            | inr unlisted ↦
                rw (← ok_injective (rw (given, stop, tools, choice, unlisted) at h)) absent
          ]
        ]
      ]
    ]
  ]

  allowlist_hides :
      (d params : Fields) {d' : Fields}
      → get k d ≡ none
      → allowlist d params ≡ ok d'
      → get k d' ≡ none
  unfolding allowlist
  allowlist_hides d end absent h = rw (← ok_injective h) absent
  allowlist_hides d (field j v params) absent h =
      let (d1, e, h') = chain-ok (translate_param d j v) (λ d. allowlist d params) h in
      allowlist_hides d1 params (translate_param_hides d j v absent e) h'

max_tokens_of_truthy : (o : Option Json) → is_truthy (max_tokens_of o) ≡ true
max_tokens_of_truthy none = refl
max_tokens_of_truthy (some v) = elim (Bool-cases (is_truthy v)) [
  | inl e ↦ rw (e, e) refl
  | inr e ↦ rw e refl
]

hidden_ne : (k : String) → is_listed k forwarded_params ≡ false → ("max_tokens" == k) ≡ false
hidden_ne k hidden = elim (Bool-cases ("max_tokens" == k)) [
  | inl same ↦
      absurd
        (clash (ap (λ t. is_listed t forwarded_params) ((eq_iff "max_tokens" k).0 same) ∙ hidden))
  | inr other ↦ other
]
  where
    clash : true ≡ false → ⊥
    clash e = cc

-- the system text, the model and the other messages
abbrev pub own_fields : String → List Fields → Fields
unfolding put_system join_if_any
own_fields model messages =
    put_system (join_if_any (system_texts messages))
      (base_fields model (keep (λ m. not (is_system m)) messages))

module _ (model : String) (messages : List Fields) (params : Fields) where
  transform_request_parts :
      {body : Fields}
      → transform_request model messages params ≡ ok body
      → (d : Fields) × (allowlist end params ≡ ok d)
        × (body
            ≡ update
                (put "max_tokens" (max_tokens_of (get "max_tokens" d)) (own_fields model messages))
                (delete "max_tokens" d))
  unfolding transform_request own_fields
  transform_request_parts h =
      let split = extract_system_messages_split messages in
      let (d, e, h') = chain-ok (allowlist end params) _ h in
      let body_of : Option String × List Fields → Fields = λ p.
        update
          (put "max_tokens" (max_tokens_of (get "max_tokens" d))
            (put_system p.0 (base_fields model p.1)))
          (delete "max_tokens" d) in
      (d, e, sym (ok_injective h') ∙ ap body_of split)

  -- A key of the request to Anthropic that is not one of the 10 parameters of the allowlist has the value that
  -- the model and the messages give it, whatever the parameters say: the model, the messages without those of
  -- the system, and under "system" their texts, if there is one that is not empty. Any other is not there.
  pub transform_request_owns :
      (k : String) {body : Fields}
      → is_listed k forwarded_params ≡ false
      → transform_request model messages params ≡ ok body
      → get k body ≡ get k (own_fields model messages)
  transform_request_owns k hidden h =
      let (d, e, same) = transform_request_parts h in
      let absent = allowlist_hides k hidden end params refl e in
      let not_limit = hidden_ne k hidden in
      ap (get k) same
      ∙ get-update_other k
          (put "max_tokens" (max_tokens_of (get "max_tokens" d)) (own_fields model messages))
          (delete "max_tokens" d) (rw (get-delete k "max_tokens" d, not_limit) absent)
      ∙ rw
          (
            get-put k "max_tokens" (max_tokens_of (get "max_tokens" d)) (own_fields model messages),
            not_limit,
          )
          refl

  -- A request to Anthropic has a limit of tokens that is not null, not 0 and not empty.
  pub transform_request_limits :
      {body : Fields}
      → transform_request model messages params ≡ ok body
      → (v : Json) × (get "max_tokens" body ≡ some v) × (is_truthy v ≡ true)
  transform_request_limits h =
      let (d, e, same) = transform_request_parts h in
      (
        max_tokens_of (get "max_tokens" d),
        ap (get "max_tokens") same
            ∙ get-update_other "max_tokens"
                (put "max_tokens" (max_tokens_of (get "max_tokens" d)) (own_fields model messages))
                (delete "max_tokens" d) (get-delete "max_tokens" "max_tokens" d)
            ∙ get-put "max_tokens" "max_tokens" (max_tokens_of (get "max_tokens" d))
                (own_fields model messages),
        max_tokens_of_truthy (get "max_tokens" d),
      )
