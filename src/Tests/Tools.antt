-- ===== src/Tests/Tools.antt =====
-- The tools' theorems at concrete inputs.
use sentinel_subnet.Base.Json.{Fields, end, field, int, obj, str}
use sentinel_subnet.Registry.{get}
use sentinel_subnet.Mcp.Keyword.{
  after_char, after_pair, drop_comment, first_keyword, first_word, is_block_comment,
  is_line_comment, skip_comments,
}
use sentinel_subnet.Mcp.Keyword.Fuel.{skip_comments-enough}
use sentinel_subnet.Mcp.Server.{Tool}
use sentinel_subnet.Mcp.Query.{
  Answered, Payload, PostgresQueryTool, QueryResult, call_query, call_query-Answered, limited,
  params_of, sql_of,
}
use sentinel_subnet.Base.Result.{ok}
use sentinel_subnet.Base.Text.{
  codes, is_space, lower, lower_char, lstrip, member, starts_with, strip, text_eq,
}
use sentinel_subnet.Base.Int.{pos}
use sentinel_subnet.Base.{[], arith, false, refl, some, true, ℕ, ◌+◌, ◌∷◌, ◌≡◌}

abbrev table : QueryResult
table = record {
  columns = codes "id" ∷ [];
  rows = (int (pos 1) ∷ []) ∷ (int (pos 2) ∷ []) ∷ (int (pos 3) ∷ []) ∷ [];
}

abbrev reader : PostgresQueryTool
reader = record { query = λ sql params. some table; allow_writes = false; max_rows = 2 }

abbrev arguments : Fields
arguments = field (codes "sql") (str (codes "/* all */ SELECT 1")) end

abbrev payload : Payload
payload = record {
  columns = codes "id" ∷ [];
  rows = (int (pos 1) ∷ []) ∷ (int (pos 2) ∷ []) ∷ [];
  row_count = 2;
  truncated = true;
}

queried : call_query reader arguments ≡ ok payload
unfolding call_query get sql_of params_of first_keyword member limited strip lstrip is_space text_eq
    skip_comments is_line_comment is_block_comment starts_with drop_comment after_char after_pair
    first_word lower lower_char
queried = refl

call_query-Answered_example : Answered reader arguments payload
call_query-Answered_example = call_query-Answered reader arguments payload queried

skip_comments-enough_example :
    (is_line_comment (skip_comments 9 (codes "--x\nDROP")) ≡ false)
    × (is_block_comment (skip_comments 9 (codes "--x\nDROP")) ≡ false)
    × ((more : ℕ)
        → skip_comments (9 + more) (codes "--x\nDROP") ≡ skip_comments 9 (codes "--x\nDROP"))
skip_comments-enough_example = skip_comments-enough 9 (codes "--x\nDROP") (omega arith)

abbrev echo : Tool Fields
echo = record {
  name = codes "echo";
  description = codes "echo";
  input_schema = obj end;
  call = λ fields. ok fields;
}
