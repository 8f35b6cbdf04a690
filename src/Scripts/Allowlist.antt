-- ===== src/Scripts/Allowlist.antt =====
-- `resolve_allowlist` and `refresh_allowlist` of scripts/run_miner.py. A set is the list of its elements;
-- `none` from the chain is an exception. The handler holds the set that a refresh writes to, so that a
-- request may meet it between two writes.
pub mod Admitted
use sentinel_subnet.Chain.Discovery.{Neuron, validator_hotkeys}
use sentinel_subnet.Base.Result.{Result, err, map_ok, ok}
use sentinel_subnet.Base.Text.{Text}
use sentinel_subnet.Base.{Bool, List, Option, [], if◌then◌else◌, none, some, ◌++◌, ◌∷◌}

pub record AllowArgs : Type 0 where
  pub allow_any : Bool
  pub allow_hotkey : List Text
  pub no_allow_validators : Bool

pub data AllowError : Type 0 where
  chain_unread : AllowError

-- With the chain's validators; without them only where a hotkey is named.
unfoldable pub with_validators :
    (named : List Text) → Option (List Neuron) → Result AllowError (List Text)
unfolding validator_hotkeys
with_validators named (some neurons) = ok (named ++ validator_hotkeys neurons)
with_validators [] none = err chain_unread
with_validators (h ∷ hs) none = ok (h ∷ hs)

-- `resolve_allowlist`: `none` lets in anyone.
unfoldable pub resolve_allowlist :
    AllowArgs → (chain : Option (List Neuron)) → Result AllowError (Option (List Text))
unfolding with_validators
resolve_allowlist args chain =
    if args.allow_any
    then ok none
    else if args.no_allow_validators
    then ok (some args.allow_hotkey)
    else map_ok some (with_validators args.allow_hotkey chain)

-- What one round of `refresh_allowlist` writes: the set is cleared and then filled.
unfoldable pub writes : (explicit : List Text) → Option (List Neuron) → List (List Text)
unfolding validator_hotkeys
writes explicit none = []
writes explicit (some neurons) = [] ∷ (explicit ++ validator_hotkeys neurons) ∷ []

-- The set that stands after a round.
unfoldable pub refreshed :
    (explicit : List Text) → Option (List Neuron) → (allowed : List Text) → List Text
unfolding validator_hotkeys
refreshed explicit none allowed = allowed
refreshed explicit (some neurons) allowed = explicit ++ validator_hotkeys neurons

-- The sets that requests may meet over some rounds, in order, and the one in the end.
unfoldable pub met :
    (explicit : List Text) → List (Option (List Neuron)) → (allowed : List Text) → List (List Text)
unfolding writes refreshed
met explicit [] allowed = allowed ∷ []
met explicit (chain ∷ chains) allowed =
    allowed ∷ (writes explicit chain ++ met explicit chains (refreshed explicit chain allowed))
