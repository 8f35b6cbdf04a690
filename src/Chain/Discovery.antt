-- ===== src/Chain/Discovery.antt =====
-- sentinel/chain.py: the endpoint that is published, the miners that are discovered and the validators
-- that are let in.
use mathlib.Core.Option.{map as on_value}
use sentinel_subnet.Base.Text.{Distinct, Text, codes, member, text_eq, text_eq_iff, truthy}
use sentinel_subnet.Base.Decimal.{decimal}
use sentinel_subnet.Base.{
  All, Bool, Bool-cases, List, Option, Option-cases, [], ap, arith, false, given_or, if◌then◌else◌,
  inl, inr, none, refl, some, suc, true, ℕ, ◌++◌, ◌∙◌, ◌∷◌, ◌≡◌, ◌⊎◌,
}

-- An axon as some view hands it out: nothing, a formatted text, or a mapping of address and port.
pub data Axon : Type 0 where
  no_axon : Axon
  formatted : Text → Axon
  mapped : (ip : Option Text) (port : Option ℕ) → Axon

pub record Neuron : Type 0 where
  pub uid : ℕ
  pub hotkey : Text
  pub axon : Axon
  pub validator_permit : Bool

pub record DiscoveredMiner : Type 0 where
  pub uid : ℕ
  pub hotkey_ss58 : Text
  pub base_url : Text
  pub validator_permit : Bool

-- `f"{ip}:{port}" if ip and port else None`
unfoldable pub address : Option Text → Option ℕ → Option Text
unfolding decimal
address (some (k ∷ ip)) (some (suc port)) = some ((k ∷ ip) ++ (b':' ∷ decimal (suc port)))
address _ _ = none

-- `_endpoint`
unfoldable pub endpoint : Axon → Option Text
unfolding truthy address
endpoint no_axon = none
endpoint (formatted s) = truthy (some s)
endpoint (mapped ip port) = address ip port

-- What one neuron adds to the list.
unfoldable pub discovered : (excluded : List Text) (scheme : Text) → Neuron → Option DiscoveredMiner
unfolding member endpoint
discovered excluded scheme n =
    if member n.hotkey excluded
    then none
    else on_value
        (λ (e : Text). record {
          uid = n.uid;
          hotkey_ss58 = n.hotkey;
          base_url = scheme ++ (codes "://" ++ e);
          validator_permit = n.validator_permit;
        })
        (endpoint n.axon)

abbrev pub with_found : Option DiscoveredMiner → List DiscoveredMiner → List DiscoveredMiner
with_found none ms = ms
with_found (some m) ms = m ∷ ms

-- `discover_miners`, over the neurons of the metagraph
unfoldable pub discover_miners :
    (excluded : List Text) (scheme : Text) → List Neuron → List DiscoveredMiner
unfolding discovered
discover_miners excluded scheme [] = []
discover_miners excluded scheme (n ∷ ns) =
    with_found (discovered excluded scheme n) (discover_miners excluded scheme ns)

-- `publish_axon`: `none` is the `ValueError`. The SDK's `ServeAxon` and the test for a loopback address,
-- which fails on what is no address, are arguments.
unfoldable pub publish_axon :
    {R : Type 0} (loopback : Text → Option Bool) (serve : (ip : Text) (port : ℕ) → R) (ip : Text)
    (port : ℕ)
    → Option R
publish_axon loopback serve ip port =
    if given_or (loopback ip) false then none else some (serve ip port)

-- `validator_hotkeys`, a set
unfoldable pub validator_hotkeys : List Neuron → List Text
validator_hotkeys [] = []
validator_hotkeys (n ∷ ns) =
    let rest = validator_hotkeys ns in if n.validator_permit then n.hotkey ∷ rest else rest

-- `has_validator_permit`
unfoldable pub has_validator_permit : Text → List Neuron → Bool
unfolding text_eq
has_validator_permit hotkey [] = false
has_validator_permit hotkey (n ∷ ns) =
    let rest = has_validator_permit hotkey ns in
    if text_eq n.hotkey hotkey then n.validator_permit else rest

discover_miners-append :
    (excluded : List Text) (scheme : Text) (ns ms : List Neuron)
    → discover_miners excluded scheme (ns ++ ms)
      ≡ discover_miners excluded scheme ns ++ discover_miners excluded scheme ms
unfolding discover_miners
discover_miners-append excluded scheme [] ms = refl
discover_miners-append excluded scheme (n ∷ ns) ms =
    rw (discover_miners-append excluded scheme ns ms)
      (with_found-append (discovered excluded scheme n) _ _)
  where
    with_found-append :
        (o : Option DiscoveredMiner) (xs ys : List DiscoveredMiner)
        → with_found o (xs ++ ys) ≡ with_found o xs ++ ys
    with_found-append none xs ys = refl
    with_found-append (some m) xs ys = refl

module _ (excluded : List Text) (scheme : Text) (n : Neuron) where
  discovered-some :
      (e : Text)
      → member n.hotkey excluded ≡ false
      → endpoint n.axon ≡ some e
      → discovered excluded scheme n
        ≡ some (record {
          uid = n.uid;
          hotkey_ss58 = n.hotkey;
          base_url = scheme ++ (codes "://" ++ e);
          validator_permit = n.validator_permit;
        })
  unfolding discovered
  discovered-some e here serves = rw (here, serves) refl

  discovered-none :
      (member n.hotkey excluded ≡ true) ⊎ (endpoint n.axon ≡ none)
      → discovered excluded scheme n ≡ none
  unfolding discovered
  discovered-none (inl shut) = rw shut refl
  discovered-none (inr silent) = ground (arith, silent)

  neuron_in_place :
      (before after : List Neuron) (o : Option DiscoveredMiner)
      → discovered excluded scheme n ≡ o
      → discover_miners excluded scheme (before ++ (n ∷ after))
        ≡ discover_miners excluded scheme before
          ++ with_found o (discover_miners excluded scheme after)
  unfolding discover_miners
  neuron_in_place before after o e =
      discover_miners-append excluded scheme before (n ∷ after)
      ∙ ap
          (λ (q : Option DiscoveredMiner).
            discover_miners excluded scheme before
            ++ with_found q (discover_miners excluded scheme after))
          e

-- Each neuron is judged alone and in its place: one that serves and is not excluded is found under
-- its own uid and hotkey, at its own endpoint; one that is excluded or does not serve adds nothing,
-- whatever stands before or behind it.
pub discover_miners-neuron :
    (excluded : List Text) (scheme : Text) (before after : List Neuron) (n : Neuron)
    → ((e : Text)
        → member n.hotkey excluded ≡ false
        → endpoint n.axon ≡ some e
        → discover_miners excluded scheme (before ++ (n ∷ after))
          ≡ discover_miners excluded scheme before
            ++ (record {
              uid = n.uid;
              hotkey_ss58 = n.hotkey;
              base_url = scheme ++ (codes "://" ++ e);
              validator_permit = n.validator_permit;
            }
                ∷ discover_miners excluded scheme after))
      × ((member n.hotkey excluded ≡ true) ⊎ (endpoint n.axon ≡ none)
          → discover_miners excluded scheme (before ++ (n ∷ after))
            ≡ discover_miners excluded scheme before ++ discover_miners excluded scheme after)
discover_miners-neuron excluded scheme before after n = (
  λ e here serves.
      neuron_in_place excluded scheme n before after _
        (discovered-some excluded scheme n e here serves),
  λ skipped.
      neuron_in_place excluded scheme n before after none
        (discovered-none excluded scheme n skipped),
)

-- Who is excluded is not among the miners.
pub discover_miners-excludes :
    (excluded : List Text) (scheme : Text) (ns : List Neuron)
    → All (λ m. member m.hotkey_ss58 excluded ≡ false) (discover_miners excluded scheme ns)
unfolding discover_miners discovered
discover_miners-excludes excluded scheme [] = tt
discover_miners-excludes excluded scheme (n ∷ ns) =
    let rest = discover_miners-excludes excluded scheme ns in
    elim (Bool-cases (member n.hotkey excluded)) [
      | inl out ↦ rw out rest
      | inr here ↦ elim (Option-cases (endpoint n.axon)) [
        | inl nowhere ↦ rw (here, nowhere) rest
        | inr (e, serves) ↦ rw (here, serves) (here, rest)
      ]
    ]

abbrev pub hotkeys : List Neuron → List Text
hotkeys [] = []
hotkeys (n ∷ ns) = n.hotkey ∷ hotkeys ns

unlisted :
    (hotkey : Text) (ns : List Neuron)
    → member hotkey (hotkeys ns) ≡ false
    → member hotkey (validator_hotkeys ns) ≡ false
unfolding member validator_hotkeys
unlisted hotkey [] h = refl
unlisted hotkey (n ∷ ns) h = ground (arith, unlisted hotkey ns)

-- Asking for one hotkey and asking for the set agree, where no hotkey is registered twice.
pub has_validator_permit-validator_hotkeys :
    (hotkey : Text) (ns : List Neuron)
    → Distinct (hotkeys ns)
    → has_validator_permit hotkey ns ≡ member hotkey (validator_hotkeys ns)
unfolding has_validator_permit validator_hotkeys member
has_validator_permit-validator_hotkeys hotkey [] d = refl
has_validator_permit-validator_hotkeys hotkey (n ∷ ns) d = ground (
  arith,
  text_eq_iff n.hotkey hotkey,
  text_eq_iff hotkey n.hotkey,
  unlisted n.hotkey ns d.0,
  has_validator_permit-validator_hotkeys hotkey ns d.1,
)
