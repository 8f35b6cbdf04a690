-- ===== src/Scripts/Broker/Stored.antt =====
-- What a broker of the scripts holds.
use mathlib.Core.Option.{some-injective}
use sentinel_subnet.Kbs.{Credentials, KeyBroker, store_secret}
use sentinel_subnet.Scripts.Broker.{store_all}
use sentinel_subnet.Base.Text.{Text, text_eq, text_eq_iff}
use sentinel_subnet.Base.Dict.{Dict, IsDict, insert, lookup, lookup-insert, lookup-insert_self}
use sentinel_subnet.Base.{
  Bool-cases, [], ap, arith, inl, inr, none, refl, some, subst, ◌∙◌, ◌∷◌, ◌≡◌,
}

abbrev pub secret : (resource dsn : Text) → Credentials
secret resource dsn = record { dsn = dsn; resource = resource }

-- Storing the scopes, each under its name.
module _ {Cert : Type 0} where
  store_all-others :
      (name : Text) (scopes : Dict Text) (b : KeyBroker Cert)
      → lookup name scopes ≡ none
      → lookup name (store_all scopes b).secrets ≡ lookup name b.secrets
  unfolding store_all store_secret lookup
  store_all-others name [] b h = refl
  store_all-others name ((scope, dsn) ∷ scopes) b h =
      store_all-others name scopes (store_secret scope dsn b) (ground (arith, h))
      ∙ ground (arith, h, lookup-insert scope name (secret scope dsn) b.secrets)

  pub store_all-lookup :
      (name dsn : Text) (scopes : Dict Text) (b : KeyBroker Cert)
      → IsDict scopes
      → lookup name scopes ≡ some dsn
      → lookup name (store_all scopes b).secrets ≡ some (secret name dsn)
  unfolding store_all store_secret lookup
  store_all-lookup name dsn [] b unique h = cc h
  store_all-lookup name dsn ((scope, own) ∷ scopes) b unique h =
      elim (Bool-cases (text_eq scope name)) [
        | inl same ↦
            let named = (text_eq_iff scope name).0 same in
            store_all-others name scopes (store_secret scope own b)
              (subst (λ (n : Text). lookup n scopes ≡ none) named unique.0)
            ∙ subst
                (λ (n : Text).
                  lookup n (insert scope (secret scope own) b.secrets) ≡ some (secret n own))
                named (lookup-insert_self scope (secret scope own) b.secrets)
            ∙ ap (λ (d : Text). some (secret name d)) (some-injective _ _ (ground (arith, h, same)))
        | inr other ↦
            store_all-lookup name dsn scopes (store_secret scope own b) unique.1
              (ground (arith, h, other))
      ]
