-- ===== src/Serving/Handler/Routing/Listed.antt =====
-- What `/tools` lists (sentinel/serving/handler.py).
use mathlib.Core.List.{Permᴰ}
use sentinel_subnet.Base.Json.{Json}
use sentinel_subnet.Registry.{get}
use sentinel_subnet.Mcp.Server.{McpServer, Tool, list_tools, listing, sorted_tools}
use sentinel_subnet.Mcp.Server.Sorted.{
  InOrder, select-InOrder, select-perm, sorted_tools-InOrder, sorted_tools-perm,
}
use sentinel_subnet.Serving.Handler.{tool_allowed}
use sentinel_subnet.Serving.Handler.Routing.{in_scope, listed_name}
use sentinel_subnet.Base.Text.{Text, text_eq}
use sentinel_subnet.Base.{
  Bool, List, Option, [], ap, arith, map, none, refl, select, some, sym, true, ◌∷◌, ◌≡◌,
}

select-all : (ts : List (Tool Json)) → select (λ (t : Tool Json). true) ts ≡ ts
select-all [] = refl
select-all (t ∷ ts) = rw (select-all ts)

in_scope-map :
    (str_of : Json → Text) (scopes : List Text) (ts : List (Tool Json))
    → in_scope str_of (map listing ts) (some scopes)
      ≡ map listing (select (λ t. tool_allowed t.name (some scopes)) ts)
unfolding in_scope listing listed_name get text_eq
in_scope-map str_of scopes [] = refl
in_scope-map str_of scopes (t ∷ ts) = ground (arith, in_scope-map str_of scopes ts)

in_scope-selected :
    (str_of : Json → Text) (scopes : Option (List Text)) (ts : List (Tool Json))
    → in_scope str_of (map listing ts) scopes
      ≡ map listing (select (λ t. tool_allowed t.name scopes) ts)
unfolding in_scope tool_allowed
in_scope-selected str_of none ts = sym (ap (map listing) (select-all ts))
in_scope-selected str_of (some scopes) ts = in_scope-map str_of scopes ts

-- A caller's list is exactly what it may reach: each registered tool whose calls its scopes allow, as
-- often as it is registered and no other, in the order of their names.
pub in_scope-list_tools :
    (str_of : Json → Text) (server : McpServer Json) (scopes : Option (List Text))
    → (listed : List (Tool Json)) × (in_scope str_of (list_tools server) scopes
        ≡ map listing listed)
      × InOrder listed
      × Permᴰ listed (
          select
            (λ (t : Tool Json). tool_allowed t.name scopes)
            (map (λ (e : Text × Tool Json). e.1) server.tools))
unfolding list_tools
in_scope-list_tools str_of server scopes =
    let reaches : Tool Json → Bool = λ t. tool_allowed t.name scopes in
    let ts = sorted_tools server.tools in
    (
      select reaches ts,
      in_scope-selected str_of scopes ts,
      select-InOrder reaches ts (sorted_tools-InOrder server.tools),
      select-perm reaches ts _ (sorted_tools-perm server.tools),
    )
