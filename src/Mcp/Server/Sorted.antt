-- ===== src/Mcp/Server/Sorted.antt =====
-- The order of the tools' list (sentinel/mcp/server.py), against what sorting has to give.
use mathlib.Core.List.{Permᴰ}
use mathlib.Core.List.Permᴰ
use sentinel_subnet.Base.Json.{text_leb}
use sentinel_subnet.Mcp.Server.{Tool, insert_tool, sorted_tools}
use sentinel_subnet.Base.Text.{Text}
use sentinel_subnet.Base.Dict.{Dict}
use sentinel_subnet.Base.{
  All, Bool, Bool-cases, List, [], arith, inl, inr, map, refl, select, subst, true, ◌||◌, ◌∷◌, ◌≡◌,
}

text_leb_total : (s t : Text) → (text_leb s t || text_leb t s) ≡ true
unfolding text_leb
text_leb_total [] t = refl
text_leb_total (x ∷ s) [] = refl
text_leb_total (x ∷ s) (y ∷ t) = ground (arith, text_leb_total s t)

text_leb_trans : (s t u : Text) → text_leb s t ≡ true → text_leb t u ≡ true → text_leb s u ≡ true
unfolding text_leb
text_leb_trans [] t u h k = refl
text_leb_trans (x ∷ s) [] u h k = cc h
text_leb_trans (x ∷ s) (y ∷ t) [] h k = cc k
text_leb_trans (x ∷ s) (y ∷ t) (z ∷ u) h k = ground (arith, text_leb_trans s t u)

module _ {A : Type 0} where
  -- Each name is at most the ones after it.
  abbrev pub InOrder : List (Tool A) → Type 0
  InOrder [] = Unit
  InOrder (t ∷ ts) = All (λ (u : Tool A). text_leb t.name u.name ≡ true) ts × InOrder ts

  insert_tool-All :
      (P : Tool A → Type 0) (t : Tool A) (us : List (Tool A))
      → P t
      → All P us
      → All P (insert_tool t us)
  unfolding insert_tool
  insert_tool-All P t [] p h = (p, tt)
  insert_tool-All P t (u ∷ us) p h = elim (Bool-cases (text_leb t.name u.name)) [
    | inl low ↦ rw low (p, h)
    | inr high ↦ rw high (h.0, insert_tool-All P t us p h.1)
  ]

  All-after :
      (t u : Tool A) (us : List (Tool A))
      → text_leb t.name u.name ≡ true
      → All (λ (v : Tool A). text_leb u.name v.name ≡ true) us
      → All (λ (v : Tool A). text_leb t.name v.name ≡ true) us
  All-after t u [] low h = tt
  All-after t u (v ∷ us) low h =
      (text_leb_trans t.name u.name v.name low h.0, All-after t u us low h.1)

  insert_tool-InOrder : (t : Tool A) (us : List (Tool A)) → InOrder us → InOrder (insert_tool t us)
  unfolding insert_tool
  insert_tool-InOrder t [] h = (tt, tt)
  insert_tool-InOrder t (u ∷ us) h = elim (Bool-cases (text_leb t.name u.name)) [
    | inl low ↦ rw low ((low, All-after t u us low h.0), h)
    | inr high ↦
        let total = text_leb_total t.name u.name in
        let less : text_leb u.name t.name ≡ true = ground (arith, total, high) in
        rw high (
          insert_tool-All (λ (v : Tool A). text_leb u.name v.name ≡ true) t us less h.0,
          insert_tool-InOrder t us h.1,
        )
  ]

  pub sorted_tools-InOrder : (d : Dict (Tool A)) → InOrder (sorted_tools d)
  unfolding sorted_tools
  sorted_tools-InOrder [] = tt
  sorted_tools-InOrder ((name, t) ∷ d) =
      insert_tool-InOrder t (sorted_tools d) (sorted_tools-InOrder d)

  insert_tool-perm : (t : Tool A) (us : List (Tool A)) → Permᴰ (insert_tool t us) (t ∷ us)
  unfolding insert_tool
  insert_tool-perm t [] = Permᴰ.refl (t ∷ [])
  insert_tool-perm t (u ∷ us) = elim (Bool-cases (text_leb t.name u.name)) [
    | inl low ↦ rw low (Permᴰ.refl (t ∷ u ∷ us))
    | inr high ↦
        rw high (Permᴰ.trans (Permᴰ.cons refl (insert_tool-perm t us)) (Permᴰ.swap refl refl))
  ]

  pub sorted_tools-perm :
      (d : Dict (Tool A)) → Permᴰ (sorted_tools d) (map (λ (e : Text × Tool A). e.1) d)
  unfolding sorted_tools
  sorted_tools-perm [] = Permᴰ.nil
  sorted_tools-perm ((name, t) ∷ d) =
      Permᴰ.trans (insert_tool-perm t (sorted_tools d)) (Permᴰ.cons refl (sorted_tools-perm d))

  pub select-InOrder : (p : Tool A → Bool) (ts : List (Tool A)) → InOrder ts → InOrder (select p ts)
  select-InOrder p [] h = tt
  select-InOrder p (t ∷ ts) h = elim (Bool-cases (p t)) [
    | inl kept ↦ rw kept (select-All ts h.0, select-InOrder p ts h.1)
    | inr left ↦ rw left (select-InOrder p ts h.1)
  ]
    where
      select-All :
          (us : List (Tool A))
          → All (λ (u : Tool A). text_leb t.name u.name ≡ true) us
          → All (λ (u : Tool A). text_leb t.name u.name ≡ true) (select p us)
      select-All [] h = tt
      select-All (u ∷ us) h = elim (Bool-cases (p u)) [
        | inl kept ↦ rw kept (h.0, select-All us h.1)
        | inr left ↦ rw left (select-All us h.1)
      ]

module _ {A : Type 0} (p : A → Bool) where
  select-cons :
      (a : A) (xs ys : List A)
      → Permᴰ (select p xs) (select p ys)
      → Permᴰ (select p (a ∷ xs)) (select p (a ∷ ys))
  select-cons a xs ys h = elim (Bool-cases (p a)) [
    | inl kept ↦ rw kept (Permᴰ.cons refl h)
    | inr left ↦ rw left h
  ]

  select-swap : (a b : A) (l : List A) → Permᴰ (select p (a ∷ b ∷ l)) (select p (b ∷ a ∷ l))
  select-swap a b l = elim (Bool-cases (p a)) [
    | inl first ↦ elim (Bool-cases (p b)) [
      | inl second ↦ rw (first, second) (Permᴰ.swap refl refl)
      | inr out ↦ rw (first, out) (Permᴰ.refl (a ∷ select p l))
    ]
    | inr out ↦ rw out (Permᴰ.refl (select p (b ∷ l)))
  ]

  -- What is selected of two lists with the same elements has the same elements.
  pub select-perm : (xs ys : List A) → Permᴰ xs ys → Permᴰ (select p xs) (select p ys)
  select-perm _ _ Permᴰ.nil = Permᴰ.nil
  select-perm _ _ (Permᴰ.cons {a} {b} {l₁} {l₂} e d) =
      subst (λ b. Permᴰ (select p (a ∷ l₁)) (select p (b ∷ l₂))) e
        (select-cons a l₁ l₂ (select-perm l₁ l₂ d))
  select-perm _ _ (Permᴰ.swap {a} {b} {a'} {b'} {l} e f) =
      subst (λ z. Permᴰ (select p (a ∷ b ∷ l)) (select p (a' ∷ z ∷ l))) e
        (subst (λ z. Permᴰ (select p (a ∷ b ∷ l)) (select p (z ∷ a ∷ l))) f (select-swap a b l))
  select-perm _ _ (Permᴰ.trans {l₁} {l₂} {l₃} d e) =
      Permᴰ.trans (select-perm l₁ l₂ d) (select-perm l₂ l₃ e)
