-- ===== src/Flatted/RoundTrip.antt =====
-- `Parse` of internal/flatted/flatted.go reads what `Stringify` writes.
use n8n_turbo.Prelude.{
  ℕ, suc, ◌^◌, ◌≤◌, ◌<◌, String, true, none, some, List, [], ◌∷◌, length, get_elem?, ◌≡◌, refl, sym,
  subst, ap, ◌∙◌, arith, inl, inr, Option-cases, pos, negsuc,
}
use mathlib.Core.Option.{none-ne-some}
use n8n_turbo.Cron.Text.{atoi}
use n8n_turbo.Flatted.Value.{Value, null, bool, number, str, arr, obj, cell, nil, cons}
use n8n_turbo.Flatted.Table.{Values, Encodes}
use n8n_turbo.Flatted.Stringify.{add, flatten, new_stringifier, stringify}
use n8n_turbo.Flatted.Entries.{flatten-Placed}
use n8n_turbo.Flatted.Parse.{
  done, and_then, empty_cache, parse_from, parse_values, parse, as_string, ParseError, bad_root,
  root_out_of_range, failed, parse_root, is_flatted_json,
}
use n8n_turbo.Flatted.Reconstruction.{IsTable, reconstruct-Rebuilt}

-- An entry at the root is no text when its value is none.
Encodes-as_string :
    (val : Values) (b k : ℕ) (t v : Value)
    → Encodes val b k t v
    → as_string v ≡ none
    → as_string t ≡ none
Encodes-as_string val b k t null eq h = ap as_string eq ∙ h
Encodes-as_string val b k t (bool x) eq h = ap as_string eq ∙ h
Encodes-as_string val b k t (number s) eq h = ap as_string eq ∙ h
Encodes-as_string val b k t (str s) eq h = ap as_string eq ∙ h
Encodes-as_string val b k t (arr xs) (rs, eq, refs) h = ap as_string eq
Encodes-as_string val b k t (obj fs) (rs, eq, refs) h = ap as_string eq
Encodes-as_string val b k t (cell i) eq h = ap as_string eq ∙ h

parse-table :
    (values : List Value) (t : Value)
    → get_elem? values 0 ≡ some t
    → as_string t ≡ none
    → parse (some values) ≡ parse_from values 0
unfolding parse parse_values
parse-table [] t at plain = ground (arith, at)
parse-table (v ∷ values) t at plain =
    let same : v ≡ t = ground (arith, at) in
    let other : as_string v ≡ none = ap as_string same ∙ plain in ground (arith, other)

root_zero : (v : Value) → (flatten v new_stringifier).0 ≡ 0
unfolding flatten add
root_zero null = refl
root_zero (bool b) = refl
root_zero (number s) = refl
root_zero (str s) = refl
root_zero (cell i) = refl
root_zero (arr nil) = refl
root_zero (arr (cons x xs)) = refl
root_zero (obj fs) = refl

-- The root has the first index: `Stringify` swaps nothing.
stringify-table : (v : Value) → stringify v ≡ (flatten v new_stringifier).1.values
unfolding stringify
stringify-table v = ground (arith, root_zero v)

-- A value that is neither a text nor null is read back, whatever texts it has in it, if its table is not
-- longer than an int counts.
pub parse-stringify :
    (v : Value)
    → as_string v ≡ none
    → length (stringify v) ≤ 2 ^ 63
    → parse (some (stringify v)) ≡ done v
unfolding parse_from
parse-stringify v plain fits =
    let (val, grown, inside, place, is) =
      flatten-Placed v new_stringifier (λ i. null) (λ e found. ground (arith, found)) in
    let values : List Value = (flatten v new_stringifier).1.values in
    let same : stringify v ≡ values = stringify-table v in
    let root : val 0 ≡ v = ap val (sym (root_zero v)) ∙ is in
    let table : IsTable values val = λ i small. grown.entry i (omega arith) small in
    let first : 0 < length values = omega (arith, inside) in
    let (t, at, encodes) = table 0 first in
    let (cache, built, better) =
      reconstruct-Rebuilt values val (subst (λ l. length l ≤ 2 ^ 63) same fits) table
        (suc (length values)) 0 0 empty_cache first (λ j w found. ground (arith, found))
        (inl (omega arith, omega arith)) in
    ap (λ l. parse (some l)) same
    ∙ (parse-table values t at
          (Encodes-as_string val (length values) 0 t (val 0) encodes (ap as_string root ∙ plain))
        ∙ (ap (λ m. and_then m (λ r. done r.0)) built ∙ ap done root))

-- No text is an index of no values.
root_of_nothing : (root : String) → (e : ParseError) × (parse_root root [] ≡ failed e)
unfolding parse_root
root_of_nothing root = elim (Option-cases (atoi root)) [
  | inl bad ↦ (bad_root, ground (arith, bad))
  | inr (pos i, eq) ↦ (root_out_of_range, ground (arith, eq))
  | inr (negsuc i, eq) ↦ (root_out_of_range, ground (arith, eq))
]

-- A text, and null, is not read back: `Parse` takes it for the index of a root, and fails, whereas
-- `IsFlattedJSON` accepts it.
pub parse-stringify_text :
    (v : Value) (s : String)
    → as_string v ≡ some s
    → ((e : ParseError) × (parse (some (stringify v)) ≡ failed e))
      × (is_flatted_json (some (stringify v)) ≡ true)
unfolding parse parse_values stringify flatten add is_flatted_json
parse-stringify_text null s h = (root_of_nothing "", refl)
parse-stringify_text (str text) s h = (root_of_nothing text, refl)
parse-stringify_text (bool b) s h = absurd (none-ne-some s h)
parse-stringify_text (number text) s h = absurd (none-ne-some s h)
parse-stringify_text (arr xs) s h = absurd (none-ne-some s h)
parse-stringify_text (obj fs) s h = absurd (none-ne-some s h)
parse-stringify_text (cell i) s h = absurd (none-ne-some s h)
