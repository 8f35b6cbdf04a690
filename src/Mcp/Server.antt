-- ===== src/Mcp/Server.antt =====
-- The registry of tools and dispatch (sentinel/mcp/server.py). Arguments are the fields of a JSON object.
pub mod Sorted
use sentinel_subnet.Base.Json.{Fields, Json, end, field, obj, str, text_leb}
use sentinel_subnet.Base.Result.{Result, err, ok, or_raise, raise_if, ◌>>=◌, ◌>>◌}
use sentinel_subnet.Base.Text.{Text, codes, text_eq_ne}
use sentinel_subnet.Base.Dict.{Dict, contains, insert, lookup, lookup-insert, lookup-insert_self}
use sentinel_subnet.Base.{
  Bool-cases, List, Option, [], false, given_or, if◌then◌else◌, inl, inr, map, refl, true, ◌∷◌, ◌≡◌,
  ◌≢◌, ◌⊎◌,
}

-- The messages of `ToolError`.
pub data ToolError : Type 0 where
  already_registered unknown_tool no_sql bad_params read_only query_failed : ToolError

-- `A` is what a call answers.
pub record Tool (A : Type 0) : Type 0 where
  pub name : Text
  pub description : Text
  pub input_schema : Json
  pub call : Fields → Result ToolError A

pub record McpServer (A : Type 0) : Type 0 where
  pub tools : Dict (Tool A)

module _ {A : Type 0} where
  abbrev pub new_server : McpServer A
  new_server = record { tools = [] }

  unfoldable pub register : Tool A → McpServer A → Result ToolError (McpServer A)
  unfolding contains insert
  register t s = do
    raise_if (contains t.name s.tools) already_registered
    ok (record { tools = insert t.name t s.tools })

  -- `sorted(self._tools.values(), key=lambda t: t.name)`, by insertion; equal names keep their order.
  unfoldable pub insert_tool : Tool A → List (Tool A) → List (Tool A)
  unfolding text_leb
  insert_tool t [] = t ∷ []
  insert_tool t (u ∷ us) =
      let rest = insert_tool t us in if text_leb t.name u.name then t ∷ u ∷ us else u ∷ rest

  unfoldable pub sorted_tools : Dict (Tool A) → List (Tool A)
  unfolding insert_tool
  sorted_tools [] = []
  sorted_tools ((name, t) ∷ ts) = insert_tool t (sorted_tools ts)

  -- One entry of `tools/list`.
  unfoldable pub listing : Tool A → Json
  listing t = obj (
      field (codes "name") (str t.name) (
        field (codes "description") (str t.description)
          (field (codes "inputSchema") t.input_schema end)))

  unfoldable pub list_tools : McpServer A → List Json
  unfolding sorted_tools listing
  list_tools s = map listing (sorted_tools s.tools)

  -- `arguments or {}`
  unfoldable pub call_tool : Text → Option Fields → McpServer A → Result ToolError A
  unfolding lookup
  call_tool name arguments s = do
    t ← or_raise (lookup name s.tools) unknown_tool
    t.call (given_or arguments end)

  -- A registration is refused for a name that is taken; otherwise calls of that name go to the new
  -- tool, and calls of every other name are answered as before.
  pub call_tool-register :
      (t : Tool A) (s : McpServer A)
      → ((contains t.name s.tools ≡ true) × (register t s ≡ err already_registered))
        ⊎ ((contains t.name s.tools ≡ false)
            × ((s' : McpServer A) × (register t s ≡ ok s')
                × ((arguments : Option Fields)
                    → call_tool t.name arguments s' ≡ t.call (given_or arguments end))
                × ((name : Text) (arguments : Option Fields)
                    → t.name ≢ name
                    → call_tool name arguments s' ≡ call_tool name arguments s)))
  unfolding register call_tool
  call_tool-register t s = elim (Bool-cases (contains t.name s.tools)) [
    | inl taken ↦ inl (taken, rw taken refl)
    | inr free ↦ inr (
      free,
      (
        record { tools = insert t.name t s.tools },
        rw free refl,
        λ arguments. rw (lookup-insert_self t.name t s.tools) refl,
        λ name arguments differs.
            rw (lookup-insert t.name name t s.tools, text_eq_ne t.name name differs) refl,
      ),
    )
  ]
