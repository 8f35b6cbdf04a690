-- ===== src/Scripts/Allowlist/Admitted.antt =====
-- Who is let in by a set that the script keeps, at every moment of its refreshes.
use mathlib.Core.Option.{some-injective}
use sentinel_subnet.Chain.Discovery.{Neuron, validator_hotkeys}
use sentinel_subnet.Scripts.Allowlist.{
  AllowArgs, met, refreshed, resolve_allowlist, with_validators, writes,
}
use sentinel_subnet.Serving.Handler.{Identity, MinerHandler, auth_error, by_hotkey}
use sentinel_subnet.Attestation.{Crypto}
use sentinel_subnet.Base.Result.{
  >>=-eq-ok, Result, Result-cases, err, map_ok, ok, ok-injective, raise_if, raise_if-ok,
}
use sentinel_subnet.Base.Text.{Text, member, text_eq}
use sentinel_subnet.Base.{
  Bool, List, Option, [], any, ap, map, arith, false, given_or, if◌then◌else◌, inl, inr, none, not,
  refl, some, subst, sym, true, ◌&&◌, ◌++◌, ◌||◌, ◌∙◌, ◌∷◌, ◌≡◌, ◌⊎◌,
}
use mathlib.Core.List.{Memᴰ}

-- A validator of one of the lists that were read.
unfoldable pub permitted_in : (caller : Text) → List (Option (List Neuron)) → Bool
unfolding text_eq
permitted_in caller =
    any (λ chain. any (λ n. n.validator_permit && text_eq caller n.hotkey) (given_or chain []))

unfoldable pub justified :
    (named : List Text) (chains : List (Option (List Neuron))) (caller : Text) → Bool
unfolding member permitted_in
justified named chains caller = member caller named || permitted_in caller chains

any-append : {A : Type 0} (p : A → Bool) (xs ys : List A) → any p (xs ++ ys) ≡ any p xs || any p ys
any-append p [] ys = refl
any-append p (x ∷ xs) ys = ground (arith, any-append p xs ys)

member-validator_hotkeys :
    (caller : Text) (ns : List Neuron)
    → member caller (validator_hotkeys ns)
      ≡ any (λ (n : Neuron). n.validator_permit && text_eq caller n.hotkey) ns
unfolding member validator_hotkeys
member-validator_hotkeys caller [] = refl
member-validator_hotkeys caller (n ∷ ns) = ground (arith, member-validator_hotkeys caller ns)

-- The set after a round that read the chain holds the named hotkeys and its validators.
member-filled :
    (caller : Text) (named : List Text) (ns : List Neuron)
    → member caller (named ++ validator_hotkeys ns) ≡ justified named (some ns ∷ []) caller
unfolding justified permitted_in member
member-filled caller named ns = ground (
  arith,
  any-append (text_eq caller) named (validator_hotkeys ns),
  member-validator_hotkeys caller ns,
)

-- Every member is justified.
abbrev pub Within :
    (named : List Text) (chains : List (Option (List Neuron))) (set : List Text) → Type 0
Within named chains set =
    (caller : Text) → member caller set ≡ true → justified named chains caller ≡ true

-- More reads justify no fewer.
justified-more :
    (named : List Text) (c d : Option (List Neuron)) (cs : List (Option (List Neuron)))
    (caller : Text)
    → (justified named (c ∷ []) caller ≡ true → justified named (c ∷ cs) caller ≡ true)
      × (justified named (c ∷ cs) caller ≡ true → justified named (c ∷ d ∷ cs) caller ≡ true)
      × (justified named (d ∷ cs) caller ≡ true → justified named (c ∷ d ∷ cs) caller ≡ true)
unfolding justified permitted_in
justified-more named c d cs caller = (λ h. ground arith, λ h. ground arith, λ h. ground arith)

named_in : (named : List Text) (chain : Option (List Neuron)) → Within named (chain ∷ []) named
unfolding justified
named_in named chain caller inside = ground (arith, inside)

filled-Within :
    (named : List Text) (ns : List Neuron)
    → Within named (some ns ∷ []) (named ++ validator_hotkeys ns)
filled-Within named ns caller inside = sym (member-filled caller named ns) ∙ inside

mem-cons : {A : Type 0} {a x : A} {xs : List A} → Memᴰ a (x ∷ xs) → (a ≡ x) ⊎ Memᴰ a xs
mem-cons (Memᴰ.head e) = inl e
mem-cons (Memᴰ.tail m) = inr m

no_member : (named : List Text) (chains : List (Option (List Neuron))) → Within named chains []
unfolding member
no_member named chains caller inside = cc inside

-- What is met after a read succeeded: the empty set, or what came of the read.
filling-Within :
    (named : List Text) (ns : List Neuron) (chains : List (Option (List Neuron))) (set : List Text)
    → (Memᴰ set (met named chains (named ++ validator_hotkeys ns))
        → Within named (some ns ∷ chains) set)
    → Memᴰ set
        ([] ∷ (named ++ validator_hotkeys ns) ∷ met named chains (named ++ validator_hotkeys ns))
    → Within named (some ns ∷ chains) set
unfolding member
filling-Within named ns chains set rest m = elim (mem-cons m) [
  | inl e ↦ subst (Within named (some ns ∷ chains)) (sym e) (no_member named (some ns ∷ chains))
  | inr n ↦ elim (mem-cons n) [
    | inl e ↦ λ caller inside.
        (justified-more named (some ns) none chains caller).0
          (subst (Within named (some ns ∷ [])) (sym e) (filled-Within named ns) caller inside)
    | inr l ↦ rest l
  ]
]

met-Within :
    (named : List Text) (last : Option (List Neuron)) (chains : List (Option (List Neuron)))
    (allowed set : List Text)
    → Within named (last ∷ []) allowed
    → Memᴰ set (met named chains allowed)
    → Within named (last ∷ chains) set
unfolding met writes refreshed
met-Within named last [] allowed set start m = elim (mem-cons m) [
  | inl e ↦ subst (Within named (last ∷ [])) (sym e) start
  | inr n ↦ elim n [ ]
]
met-Within named last (none ∷ chains) allowed set start m = elim (mem-cons m) [
  | inl e ↦ λ caller inside.
      (justified-more named last none (none ∷ chains) caller).0
        (subst (Within named (last ∷ [])) (sym e) start caller inside)
  | inr n ↦ λ caller inside.
      (justified-more named last none chains caller).1
        (met-Within named last chains allowed set start n caller inside)
]
met-Within named last (some ns ∷ chains) allowed set start m = elim (mem-cons m) [
  | inl e ↦ λ caller inside.
      (justified-more named last none (some ns ∷ chains) caller).0
        (subst (Within named (last ∷ [])) (sym e) start caller inside)
  | inr n ↦ λ caller inside. (justified-more named last (some ns) chains caller).2 (
      filling-Within named ns chains set
        (met-Within named (some ns) chains (named ++ validator_hotkeys ns) set
          (filled-Within named ns))
        n caller inside)
]

with_validators-Within :
    (named : List Text) (chain : Option (List Neuron)) (allowed : List Text)
    → with_validators named chain ≡ ok allowed
    → Within named (chain ∷ []) allowed
unfolding with_validators
with_validators-Within named (some ns) allowed h =
    subst (Within named (some ns ∷ [])) (ok-injective h) (filled-Within named ns)
with_validators-Within [] none allowed h = cc h
with_validators-Within (x ∷ xs) none allowed h =
    subst (Within (x ∷ xs) (none ∷ [])) (ok-injective h) (named_in (x ∷ xs) none)

map_ok-some :
    {E A : Type 0} {a : A} (r : Result E A) → map_ok (λ x. some x) r ≡ ok (some a) → r ≡ ok a
map_ok-some (ok x) h = cc h
map_ok-some (err e) h = cc h

chosen-Within :
    (anyone no_validators : Bool) (named : List Text) (chain : Option (List Neuron))
    (allowed : List Text)
    → (if anyone
        then ok none
        else if no_validators
        then ok (some named)
        else map_ok some (with_validators named chain))
      ≡ ok (some allowed)
    → Within named (chain ∷ []) allowed
chosen-Within true no_validators named chain allowed h = cc h
chosen-Within false true named chain allowed h =
    subst (Within named (chain ∷ [])) (some-injective _ _ (ok-injective h)) (named_in named chain)
chosen-Within false false named chain allowed h =
    with_validators-Within named chain allowed (map_ok-some (with_validators named chain) h)

-- The set that the miner starts with.
resolve_allowlist-Within :
    (args : AllowArgs) (chain : Option (List Neuron)) (allowed : List Text)
    → resolve_allowlist args chain ≡ ok (some allowed)
    → Within args.allow_hotkey (chain ∷ []) allowed
unfolding resolve_allowlist
resolve_allowlist-Within args chain allowed h =
    chosen-Within args.allow_any args.no_allow_validators args.allow_hotkey chain allowed h

-- What the handler may hold as its set, from what it starts with and the lists that are read since.
unfoldable pub held :
    (named : List Text) (chains : List (Option (List Neuron)))
    → Option (List Text)
    → List (Option (List Text))
unfolding met
held named chains none = none ∷ []
held named chains (some allowed) = map (λ set. some set) (met named chains allowed)

some_held :
    (sets : List (List Text)) (now : Option (List Text))
    → Memᴰ now (map (λ set. some set) sets)
    → (set : List Text) × (now ≡ some set) × Memᴰ set sets
some_held [] now m = elim m [ ]
some_held (s ∷ sets) now m = elim (mem-cons m) [
  | inl e ↦ (s, e, Memᴰ.head refl)
  | inr n ↦ let (set, same, inside) = some_held sets now n in (set, same, Memᴰ.tail inside)
]

-- With no leave for anyone, the script starts with a set.
resolve_allowlist-some :
    (args : AllowArgs) (chain : Option (List Neuron)) (resolved : Option (List Text))
    → args.allow_any ≡ false
    → resolve_allowlist args chain ≡ ok resolved
    → (allowed : List Text) × (resolved ≡ some allowed)
unfolding resolve_allowlist
resolve_allowlist-some args chain (some allowed) closed h = (allowed, refl)
resolve_allowlist-some args chain none closed h = decided args.no_allow_validators (rw closed at h)
  where
    decided :
        (alone : Bool)
        → (if alone
            then ok (some args.allow_hotkey)
            else map_ok some (with_validators args.allow_hotkey chain))
          ≡ ok none
        → (allowed : List Text) × (none ≡ some allowed)
    decided true e = cc e
    decided false e = elim (Result-cases (with_validators args.allow_hotkey chain)) [
      | inl (set, read) ↦ cc (rw read at e)
      | inr (x, failed) ↦ cc (rw failed at e)
    ]

-- Where the operator gave no leave for anyone, the handler holds a set from the start; and whenever a
-- request comes, between the two writes of a refresh too, it lets in a caller by its signature only if
-- the operator named its hotkey or one of the lists that were read from the chain has it with a
-- validator permit.
pub by_hotkey-resolve :
    (c : Crypto) (args : AllowArgs) (chain : Option (List Neuron))
    (chains : List (Option (List Neuron))) (resolved now : Option (List Text)) (h : MinerHandler)
    (caller nonce : Text) (identity : Identity)
    → args.allow_any ≡ false
    → resolve_allowlist args chain ≡ ok resolved
    → Memᴰ now (held args.allow_hotkey chains resolved)
    → by_hotkey c (record h { allowed_hotkeys = now }) (some (caller, nonce)) ≡ ok identity
    → ((allowed : List Text) × (resolved ≡ some allowed))
      × (justified args.allow_hotkey (chain ∷ chains) caller ≡ true)
unfolding by_hotkey held
by_hotkey-resolve c args chain chains resolved now h caller nonce identity closed start m let_in =
    let (allowed, same) = resolve_allowlist-some args chain resolved closed start in
    let (set, is, inside) =
      some_held (met args.allow_hotkey chains allowed) now
        (subst (λ r. Memᴰ now (held args.allow_hotkey chains r)) same m) in
    let (u, passes, made) = >>=-eq-ok (raise_if (not (member caller set)) auth_error) _ (
      subst
        (λ n. by_hotkey c (record h { allowed_hotkeys = n }) (some (caller, nonce)) ≡ ok identity)
        is let_in) in
    (
      (allowed, same),
      met-Within args.allow_hotkey chain chains allowed set
          (resolve_allowlist-Within args chain allowed (start ∙ ap ok same)) inside caller
          (ground (arith, raise_if-ok (not (member caller set)) auth_error passes)),
    )
