-- ===== src/Mcp/Keyword/Fuel.antt =====
-- The loop over leading comments ends (sentinel/mcp/tools/postgres.py).
use sentinel_subnet.Mcp.Keyword.{
  after_char, after_pair, drop_comment, is_block_comment, is_line_comment, skip_comments,
}
use sentinel_subnet.Base.Text.{Text, lstrip, starts_with}
use sentinel_subnet.Base.{
  Bool-cases, [], ap, arith, false, inl, inr, length, refl, suc, sym, true, zero, ℕ, ◌+◌, ◌<◌, ◌||◌,
  ◌∙◌, ◌∷◌, ◌≡◌, ◌≤◌,
}

length-lstrip : (s : Text) → length (lstrip s) ≤ length s
unfolding lstrip
length-lstrip [] = omega arith
length-lstrip (k ∷ s) = ground (arith, length-lstrip s)

length-after_char : (sep : ℕ) (s : Text) → length (after_char sep s) ≤ length s
unfolding after_char
length-after_char sep [] = omega arith
length-after_char sep (k ∷ s) = ground (arith, length-after_char sep s)

length-after_pair : (a b : ℕ) (s : Text) → length (after_pair a b s) ≤ length s
unfolding after_pair
length-after_pair a b [] = omega arith
length-after_pair a b (k ∷ []) = omega arith
length-after_pair a b (k ∷ j ∷ s) = ground (arith, length-after_pair a b (j ∷ s))

-- A comment that is dropped takes a character at least.
drop_comment-shorter :
    (s : Text)
    → (is_line_comment s || is_block_comment s) ≡ true
    → length (drop_comment s) < length s
unfolding drop_comment is_line_comment is_block_comment starts_with after_char
drop_comment-shorter [] h = absurd (ground arith)
drop_comment-shorter (k ∷ []) h = absurd (ground arith)
drop_comment-shorter (k ∷ j ∷ s) h = ground (
  arith,
  length-lstrip (after_char 10 (k ∷ j ∷ s)),
  length-lstrip (after_pair b'*' b'/' (k ∷ j ∷ s)),
  length-after_char 10 (j ∷ s),
  length-after_pair b'*' b'/' (j ∷ s),
)

skip_comments-stays :
    (fuel : ℕ) (s : Text)
    → (is_line_comment s || is_block_comment s) ≡ false
    → skip_comments fuel s ≡ s
unfolding skip_comments
skip_comments-stays zero s h = refl
skip_comments-stays (suc fuel) s h = rw h refl

fuel_suc : (n more : ℕ) → suc n + more ≡ suc (n + more)
fuel_suc n more = omega arith

skip_comments-step :
    (fuel : ℕ) (s : Text)
    → (is_line_comment s || is_block_comment s) ≡ true
    → skip_comments (suc fuel) s ≡ skip_comments fuel (drop_comment s)
unfolding skip_comments
skip_comments-step fuel s h = rw h refl

-- With the length as fuel the loop ends, at a text that begins with no further comment, and more fuel
-- changes nothing; where a block comment ends is what the code takes, at the first `*/`.
pub skip_comments-enough :
    (fuel : ℕ) (s : Text)
    → length s ≤ fuel
    → (is_line_comment (skip_comments fuel s) ≡ false)
      × (is_block_comment (skip_comments fuel s) ≡ false)
      × ((more : ℕ) → skip_comments (fuel + more) s ≡ skip_comments fuel s)
unfolding skip_comments
skip_comments-enough zero [] h = (
  unfold is_line_comment starts_with in refl,
  unfold is_block_comment starts_with in refl,
  λ more.
      skip_comments-stays (0 + more) []
        (unfold is_line_comment is_block_comment starts_with in refl),
)
skip_comments-enough zero (k ∷ s) h = absurd (omega arith)
skip_comments-enough (suc fuel) s h = elim (Bool-cases (is_line_comment s || is_block_comment s)) [
  | inl comment ↦
      let less : length (drop_comment s) ≤ fuel = omega (arith, drop_comment-shorter s comment) in
      let (line, block, stable) = skip_comments-enough fuel (drop_comment s) less in
      (
        rw comment line,
        rw comment block,
        λ more.
            ap (λ n. skip_comments n s) (fuel_suc fuel more)
            ∙ skip_comments-step (fuel + more) s comment
            ∙ stable more
            ∙ sym (skip_comments-step fuel s comment),
      )
  | inr plain ↦ (
    rw plain (ground (arith, plain)),
    rw plain (ground (arith, plain)),
    λ more.
        skip_comments-stays (suc fuel + more) s plain
        ∙ sym (skip_comments-stays (suc fuel) s plain),
  )
]
