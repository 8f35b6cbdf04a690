-- ===== src/Base/Json.antt =====
-- `json.dumps(…, sort_keys=True, separators=(",", ":"))` on the values that the program encodes.
pub mod Escape
use sentinel_subnet.Base.Json.Escape.{quoted}
use sentinel_subnet.Base.{
  ltb, ◌==◌, if◌then◌else◌, suc, Bool, true, false, ◌&&◌, ◌||◌, List, [], ◌∷◌, ◌++◌,
}
use sentinel_subnet.Base.Int.{pos, negsuc, ℤ}
use sentinel_subnet.Base.Text.{Text, codes}
use sentinel_subnet.Base.Dict.{Dict}
use sentinel_subnet.Base.Decimal.{decimal}

mutual
  -- A float is carried as the text that it prints as.
  pub data Json : Type 0 where
    null : Json
    bool : Bool → Json
    int : ℤ → Json
    float : Text → Json
    str : Text → Json
    arr : Items → Json
    obj : Fields → Json

  pub data Items : Type 0 where
    nil : Items
    cons : Json → Items → Items

  pub data Fields : Type 0 where
    end : Fields
    field : Text → Json → Fields → Fields

-- Texts in the order of their code points.
unfoldable pub text_leb : Text → Text → Bool
text_leb [] t = true
text_leb (x ∷ s) [] = false
text_leb (x ∷ s) (y ∷ t) = ltb x y || (x == y && text_leb s t)

-- Each value of an object with its printed form, sorted by key: `sort_keys=True`.
unfoldable pub insert_sorted : Text → Text → Dict Text → Dict Text
unfolding text_leb
insert_sorted k v [] = (k, v) ∷ []
insert_sorted k v ((j, w) ∷ d) =
    if text_leb k j then (k, v) ∷ (j, w) ∷ d else (j, w) ∷ insert_sorted k v d

unfoldable pub print_int : ℤ → Text
unfolding decimal
print_int (pos n) = decimal n
print_int (negsuc n) = b'-' ∷ decimal (suc n)

unfoldable pub print_bool : Bool → Text
print_bool true = codes "true"
print_bool false = codes "false"

-- `"k":v` for each entry, with commas between.
unfoldable pub print_entries : Dict Text → Text
unfolding quoted
print_entries [] = []
print_entries ((k, v) ∷ []) = quoted k ++ (b':' ∷ v)
print_entries ((k, v) ∷ e ∷ d) = quoted k ++ (b':' ∷ (v ++ (b',' ∷ print_entries (e ∷ d))))

unfoldable pub commas : List Text → Text
commas [] = []
commas (t ∷ []) = t
commas (t ∷ u ∷ ts) = t ++ (b',' ∷ commas (u ∷ ts))

unfoldable mutual
  unfolding insert_sorted print_int print_bool print_entries commas quoted

  pub dumps : Json → Text
  dumps null = codes "null"
  dumps (bool b) = print_bool b
  dumps (int n) = print_int n
  dumps (float t) = t
  dumps (str s) = quoted s
  dumps (arr xs) = b'[' ∷ (commas (dump_items xs) ++ codes "]")
  dumps (obj fs) = b'{' ∷ (print_entries (dump_fields fs) ++ codes "}")

  pub dump_items : Items → List Text
  dump_items nil = []
  dump_items (cons x xs) = dumps x ∷ dump_items xs

  -- The printed entries, in the order of their keys.
  pub dump_fields : Fields → Dict Text
  dump_fields end = []
  dump_fields (field k v fs) = insert_sorted k (dumps v) (dump_fields fs)
