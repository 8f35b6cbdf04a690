-- ===== src/Sidecar/Prompt.antt =====
-- sidecar/main.py: which model a request asks for. The two regular expressions are arguments.
use mathlib.Core.Option.{map as on_value}
use mathlib.Core.List.{reverse}
use sentinel_subnet.Attestation.{Crypto}
use sentinel_subnet.Base.Json.{Fields, Items, Json, arr, cons, nil, obj, str}
use sentinel_subnet.Registry.{get}
use sentinel_subnet.Serving.Handler.{counts}
use sentinel_subnet.Base.Text.{Distinct, Text, codes, member, text_eq, text_eq_iff}
use sentinel_subnet.Base.Dict.{Dict, lookup}
use sentinel_subnet.Base.{
  Bool, Bool-cases, List, Option, [], arith, false, given_or, if◌then◌else◌, inl, inr, length, ltb,
  none, not, refl, select, some, true, ◌&&◌, ◌++◌, ◌||◌, ◌∷◌, ◌≡◌,
}

pub data Tier : Type 0 where
  simple general complex : Tier

-- One message: its role, where there is one, its content, and what else it holds, which is passed on.
pub record Message : Type 0 where
  pub role : Option Json
  pub content : Option Json
  pub others : Fields

-- `" ".join(p.get("text", "") for p in content if isinstance(p, dict))`; `none` is the `TypeError` at a
-- part whose text is none.
unfoldable pub part_texts : Items → Option (List Text)
unfolding get
part_texts nil = some []
part_texts (cons (obj fs) ps) = elim (given_or (get (codes "text") fs) (str [])) [
  | str s ↦ on_value (λ rest. s ∷ rest) (part_texts ps)
  | j ↦ none
]
part_texts (cons p ps) = part_texts ps

unfoldable pub joined : List Text → Text
joined [] = []
joined (t ∷ []) = t
joined (t ∷ u ∷ ts) = t ++ (b' ' ∷ joined (u ∷ ts))

-- The text of a content; `none` where what is there is neither text nor list and counts as true, which
-- raises at `len`.
unfoldable pub content_text : (c : Crypto) → Option Json → Option Text
unfolding part_texts joined counts
content_text c none = some []
content_text c (some (str s)) = some s
content_text c (some (arr parts)) = on_value joined (part_texts parts)
content_text c (some j) = if counts c j then none else some []

unfoldable pub is_user : Option Json → Bool
unfolding text_eq
is_user (some (str s)) = text_eq s (codes "user")
is_user _ = false

-- The loop of `_last_user_text`, over the messages from the last one on.
unfoldable pub last_user_from : (c : Crypto) → List Message → Option Text
unfolding is_user content_text
last_user_from c [] = some []
last_user_from c (m ∷ ms) =
    let rest = last_user_from c ms in if is_user m.role then content_text c m.content else rest

unfoldable pub last_user_text : (c : Crypto) → List Message → Option Text
unfolding last_user_from
last_user_text c messages = last_user_from c (reverse messages)

-- `_classify_prompt`, by what the expressions find in the text
unfoldable pub classify : (is_complex is_simple : Text → Bool) → Text → Tier
classify is_complex is_simple text =
    if ltb 1500 (length text) || is_complex text
    then complex
    else if ltb (length text) 120 && is_simple text
    then simple
    else general

-- `ROUTE_MODELS`
abbrev pub route_model : Tier → Text
route_model simple = codes "unsloth/Mistral-Nemo-Instruct-2407-TEE"
route_model general = codes "google/gemma-4-31B-turbo-TEE"
route_model complex = codes "deepseek-ai/DeepSeek-V3.2-TEE"

-- `FALLBACK_MODELS`
abbrev pub fallback_models : List Text
fallback_models =
    codes "deepseek-ai/DeepSeek-V3.2-TEE"
    ∷ codes "google/gemma-4-31B-turbo-TEE"
    ∷ codes "unsloth/Mistral-Nemo-Instruct-2407-TEE"
    ∷ codes "moonshotai/Kimi-K2.6-TEE"
    ∷ []

abbrev pub model_names : Dict Text
model_names =
    (codes "gpt-4o", codes "deepseek-ai/DeepSeek-V3.2-TEE")
    ∷ (codes "gpt-4", codes "deepseek-ai/DeepSeek-V3.2-TEE")
    ∷ (codes "gpt-4-turbo", codes "deepseek-ai/DeepSeek-V3.2-TEE")
    ∷ (codes "gpt-4o-mini", codes "google/gemma-4-31B-turbo-TEE")
    ∷ (codes "gpt-3.5-turbo", codes "unsloth/Mistral-Nemo-Instruct-2407-TEE")
    ∷ (codes "deepseek", codes "deepseek-ai/DeepSeek-V3.2-TEE")
    ∷ (codes "gemma", codes "google/gemma-4-31B-turbo-TEE")
    ∷ (codes "mistral", codes "unsloth/Mistral-Nemo-Instruct-2407-TEE")
    ∷ (codes "qwen-coder", codes "Qwen/Qwen2.5-Coder-32B-Instruct-TEE")
    ∷ (codes "kimi", codes "moonshotai/Kimi-K2.6-TEE")
    ∷ []

-- `_normalize_model`
unfoldable pub normalize_model : Text → Text
unfolding lookup
normalize_model model = given_or (lookup model model_names) model

abbrev pub auto_names : List Text
auto_names = codes "auto" ∷ codes "tao-auto" ∷ []

-- The primary model of `query`, for a model that is a text; `none` is an exception.
unfoldable pub primary_model :
    (c : Crypto) (is_complex is_simple : Text → Bool) (requested : Text)
    → List Message
    → Option Text
unfolding member last_user_text classify normalize_model
primary_model c is_complex is_simple requested messages =
    if member requested auto_names
    then on_value (λ text. route_model (classify is_complex is_simple text))
        (last_user_text c messages)
    else some (normalize_model requested)

-- `[primary_model] + [m for m in FALLBACK_MODELS if m != primary_model]`
unfoldable pub model_chain : Text → List Text
unfolding text_eq
model_chain primary = primary ∷ select (λ m. not (text_eq m primary)) fallback_models

select-absent : (t : Text) (ms : List Text) → member t (select (λ m. not (text_eq m t)) ms) ≡ false
unfolding member
select-absent t [] = refl
select-absent t (m ∷ ms) = ground (arith, text_eq_iff m t, text_eq_iff t m, select-absent t ms)

select-member :
    (p : Text → Bool) (t : Text) (ms : List Text)
    → member t ms ≡ false
    → member t (select p ms) ≡ false
unfolding member
select-member p t [] h = refl
select-member p t (m ∷ ms) h = ground (arith, select-member p t ms)

select-Distinct : (p : Text → Bool) (ms : List Text) → Distinct ms → Distinct (select p ms)
select-Distinct p [] d = tt
select-Distinct p (m ∷ ms) d = elim (Bool-cases (p m)) [
  | inl kept ↦ rw kept (select-member p m ms d.0, select-Distinct p ms d.1)
  | inr cut ↦ rw cut (select-Distinct p ms d.1)
]

kept_or_primary :
    (primary t : Text) (ms : List Text)
    → member t ms ≡ true
    → member t (primary ∷ select (λ m. not (text_eq m primary)) ms) ≡ true
unfolding member
kept_or_primary primary t [] h = cc h
kept_or_primary primary t (m ∷ ms) h = ground (
  arith,
  text_eq_iff t m,
  text_eq_iff m primary,
  text_eq_iff t primary,
  kept_or_primary primary t ms,
)

fallback-Distinct : Distinct fallback_models
unfolding member text_eq
fallback-Distinct = (refl, (refl, (refl, (refl, tt))))

-- The chain begins with the model that was asked for, tries no model twice, and leaves out none of the
-- fallbacks.
pub model_chain_complete :
    (primary : Text)
    → ((rest : List Text) × (model_chain primary ≡ primary ∷ rest))
      × Distinct (model_chain primary)
      × ((m : Text) → member m fallback_models ≡ true → member m (model_chain primary) ≡ true)
unfolding model_chain
model_chain_complete primary = (
  (_, refl),
  (
    select-absent primary fallback_models,
    select-Distinct (λ m. not (text_eq m primary)) fallback_models fallback-Distinct,
  ),
  λ m h. kept_or_primary primary m fallback_models h,
)
