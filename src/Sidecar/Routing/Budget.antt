-- ===== src/Sidecar/Routing/Budget.antt =====
-- Where a reply of the subnet comes from (sidecar/main.py).
use sentinel_subnet.Sidecar.Upstream.{Client, Reply, Side, decentralized_budget}
use sentinel_subnet.Sidecar.Routing.{route_from}
use sentinel_subnet.Base.Text.{Text, member, text_eq_refl}
use sentinel_subnet.Base.{
  Bool-cases, List, Option, Option-cases, [], ap, arith, false, inl, inr, ltb, none, refl, some,
  subst, sym, true, ℕ, ◌-◌, ◌∙◌, ◌∷◌, ◌≡◌, ◌≤◌,
}

module _ {W : Type 0} (client : Client W)
    (attempt : (model : Text) → Side W → Option Reply × Side W) where
  -- The reply is an attempt's at a model of the chain, begun no later than the budget allows from the
  -- first reading of the clock; the side after it is the attempt's.
  pub record Routed (models : List Text) (start : ℕ) (reply : Reply) (after : Side W) : Type 0 where
    pub model : Text
    pub listed : member model models ≡ true
    pub before : Side W
    pub in_time : (client.clock before.world).0 - start ≤ decentralized_budget
    pub replied :
        attempt model (record before { world = (client.clock before.world).1 })
        ≡ (some reply, after)

  pair_of : {A B : Type 0} (p : A × B) (a : A) → p.0 ≡ a → p ≡ (a, p.1)
  pair_of p a e = cc e

  later_in_chain :
      (model : Text) (models : List Text) (start : ℕ) (reply : Reply) (after : Side W)
      → Routed models start reply after
      → Routed (model ∷ models) start reply after
  unfolding member
  later_in_chain model models start reply after r = record {
    model = r.model;
    listed = let l = r.listed in ground (arith, l);
    before = r.before;
    in_time = r.in_time;
    replied = r.replied;
  }

  abbrev ticked : Side W → Side W
  ticked s = record s { world = (client.clock s.world).1 }

  module _ (start : ℕ) (model : Text) (models : List Text) (s : Side W)
      (within : ltb decentralized_budget ((client.clock s.world).0 - start) ≡ false) where
    step_miss :
        (attempt model (ticked s)).0 ≡ none
        → route_from client attempt start (model ∷ models) s
          ≡ route_from client attempt start models (attempt model (ticked s)).1
    unfolding route_from
    step_miss missed = rw within (ground (arith, missed))

    step_hit :
        (reply : Reply)
        → (attempt model (ticked s)).0 ≡ some reply
        → route_from client attempt start (model ∷ models) s
          ≡ (some reply, (attempt model (ticked s)).1)
    unfolding route_from
    step_hit reply got = rw within (ground (arith, got))

  step_over :
      (start : ℕ) (model : Text) (models : List Text) (s : Side W)
      → ltb decentralized_budget ((client.clock s.world).0 - start) ≡ true
      → (route_from client attempt start (model ∷ models) s).0 ≡ none
  unfolding route_from
  step_over start model models s over = rw over refl

  here_in_chain :
      (start : ℕ) (model : Text) (models : List Text) (s : Side W) (reply : Reply)
      → ltb decentralized_budget ((client.clock s.world).0 - start) ≡ false
      → (attempt model (ticked s)).0 ≡ some reply
      → Routed (model ∷ models) start reply (attempt model (ticked s)).1
  unfolding member
  here_in_chain start model models s reply within got = record {
    model = model;
    listed = let self = text_eq_refl model in ground (arith, self);
    before = s;
    in_time = ground (arith, within);
    replied = pair_of _ _ got;
  }

  pub route_from-Routed :
      (start : ℕ) (models : List Text) (s : Side W) (reply : Reply)
      → (route_from client attempt start models s).0 ≡ some reply
      → Routed models start reply (route_from client attempt start models s).1
  unfolding route_from
  route_from-Routed start [] s reply h = cc h
  route_from-Routed start (model ∷ models) s reply h =
      elim (Bool-cases (ltb decentralized_budget ((client.clock s.world).0 - start))) [
        | inl over ↦ let gone = step_over start model models s over in cc (gone, h)
        | inr within ↦ elim (Option-cases (attempt model (ticked s)).0) [
          | inl missed ↦
              let same = step_miss start model models s within missed in
              let later =
                route_from-Routed start models (attempt model (ticked s)).1 reply
                  (ap (λ (r : Option Reply × Side W). r.0) (sym same) ∙ h) in
              subst (λ (r : Option Reply × Side W). Routed (model ∷ models) start reply r.1)
                (sym same) (later_in_chain model models start reply _ later)
          | inr (answer, got) ↦
              let same = step_hit start model models s within answer got in
              let agree : ◌≡◌ {A = Option Reply} (some answer) (some reply) =
                ap (λ (r : Option Reply × Side W). r.0) (sym same) ∙ h in
              subst (λ (r : Option Reply × Side W). Routed (model ∷ models) start reply r.1)
                (sym same) (here_in_chain start model models s reply within (got ∙ agree))
        ]
      ]
