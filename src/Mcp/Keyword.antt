-- ===== src/Mcp/Keyword.antt =====
-- `_first_keyword` (sentinel/mcp/tools/postgres.py), with the methods of `str` that it calls.
pub mod Fuel
use sentinel_subnet.Base.Text.{Text, codes, is_space, lower, lstrip, starts_with}
use sentinel_subnet.Base.{Bool, [], if◌then◌else◌, length, suc, zero, ℕ, ◌&&◌, ◌==◌, ◌||◌, ◌∷◌}

-- `s.partition(sep)[2]`, for separators of one and of two characters
unfoldable pub after_char : ℕ → Text → Text
after_char sep [] = []
after_char sep (k ∷ s) = let rest = after_char sep s in if k == sep then s else rest

unfoldable pub after_pair : (a b : ℕ) → Text → Text
after_pair a b [] = []
after_pair a b (k ∷ []) = []
after_pair a b (k ∷ j ∷ s) =
    let rest = after_pair a b (j ∷ s) in if k == a && j == b then s else rest

-- `stripped.startswith("--")`, `stripped.startswith("/*")`
unfoldable pub is_line_comment : Text → Bool
unfolding starts_with
is_line_comment s = starts_with s (codes "--")

unfoldable pub is_block_comment : Text → Bool
unfolding starts_with
is_block_comment s = starts_with s (codes "/*")

unfoldable pub drop_comment : Text → Text
unfolding is_line_comment after_char after_pair lstrip
drop_comment s =
    if is_line_comment s then lstrip (after_char 10 s) else lstrip (after_pair b'*' b'/' s)

-- The loop, on fuel.
unfoldable pub skip_comments : (fuel : ℕ) → Text → Text
unfolding is_line_comment is_block_comment drop_comment
skip_comments zero s = s
skip_comments (suc fuel) s =
    let rest = skip_comments fuel (drop_comment s) in
    if is_line_comment s || is_block_comment s then rest else s

-- `stripped.split(None, 1)[0]`, and "" where there is no word
unfoldable pub first_word : Text → Text
unfolding is_space
first_word [] = []
first_word (k ∷ s) = let rest = first_word s in if is_space k then [] else k ∷ rest

-- Each comment is a character at least, so that the length is fuel enough.
unfoldable pub first_keyword : Text → Text
unfolding skip_comments first_word lower lstrip
first_keyword sql =
    let stripped = lstrip sql in lower (first_word (skip_comments (length stripped) stripped))
