-- ===== src/Flatted/Stringify.antt =====
-- `Stringify` of internal/flatted/flatted.go after `normalize`, and its `stringifier`.
use n8n_turbo.Prelude.{
  ℕ, Bool, true, false, String, Option, none, some, List, [], ◌∷◌, ◌++◌, length, get_elem?,
  if◌then◌else◌, nat_eqb, ℤ, pos, negsuc, map,
}
use n8n_turbo.Cron.Text.{atoi}
use n8n_turbo.Flatted.Decimal.{itoa}
use n8n_turbo.Flatted.Value.{
  Value, null, bool, number, str, arr, obj, cell, Items, nil, cons, Fields, end, field, put,
}

-- Each map and each slice with elements of a decoded value is at an address of its own, and all empty
-- slices are at one: `seen` is the index of these, since no other address comes twice.
pub record Stringifier : Type 0 where
  pub values : List Value
  pub seen : Option ℕ

abbrev pub new_stringifier : Stringifier
new_stringifier = record { values = []; seen = none }

unfoldable pub add : Value → Stringifier → ℕ × Stringifier
add v s = (length s.values, record s { values = s.values ++ v ∷ [] })

-- `s.seen[key]` and `s.reserve(key)` for the key of a slice
abbrev pub seen_slice : Items → Stringifier → Option ℕ
seen_slice nil s = s.seen
seen_slice (cons x xs) s = none

abbrev pub remember_slice : Items → Stringifier → Stringifier
remember_slice nil s = record s { seen = some (length s.values) }
remember_slice (cons x xs) s = s

unfoldable pub reserve : Stringifier → Stringifier
reserve s = record s { values = s.values ++ null ∷ [] }

unfoldable pub store : ℕ → Value → Stringifier → Stringifier
store index v s = record s { values = put index v s.values }

abbrev pub is_null : Value → Bool
is_null null = true
is_null v = false

-- `flattenReference`, with what `flatten` of the value returns
unfoldable pub flatten_reference : Value → Stringifier → ℕ × Stringifier → Value × Stringifier
flatten_reference v s flattened =
    if is_null v then (null, s) else (str (itoa flattened.0), flattened.1)

unfoldable mutual
  unfolding flatten_reference add reserve store

  pub flatten : Value → Stringifier → ℕ × Stringifier
  flatten (arr xs) s = elim (seen_slice xs s) [
    | some index ↦ (index, s)
    | none ↦
        let (refs, s') = encode_slice xs (reserve (remember_slice xs s)) in
        (length s.values, store (length s.values) (arr refs) s')
  ]
  flatten (obj fs) s =
      let (refs, s') = encode_map fs (reserve s) in
      (length s.values, store (length s.values) (obj refs) s')
  flatten null s = add null s
  flatten (bool b) s = add (bool b) s
  flatten (number n) s = add (number n) s
  flatten (str t) s = add (str t) s
  flatten (cell k) s = add (cell k) s

  pub encode_slice : Items → Stringifier → Items × Stringifier
  encode_slice nil s = (nil, s)
  encode_slice (cons x xs) s =
      let (ref, s') = flatten_reference x s (flatten x s) in
      let (refs, s'') = encode_slice xs s' in (cons ref refs, s'')

  pub encode_map : Fields → Stringifier → Fields × Stringifier
  encode_map end s = (end, s)
  encode_map (field key x fs) s =
      let (ref, s') = flatten_reference x s (flatten x s) in
      let (refs, s'') = encode_map fs s' in (field key ref refs, s'')

-- `map[int]int{0: root, root: 0}`
abbrev pub swapped_index : ℕ → ℤ → Option ℕ
swapped_index root (pos i) =
    if nat_eqb i root then some 0 else if nat_eqb i 0 then some root else none
swapped_index root (negsuc i) = none

unfoldable pub rewrite_reference : ℕ → String → String
rewrite_reference root s = elim (atoi s) [
  | none ↦ s
  | some i ↦ elim (swapped_index root i) [ none ↦ s | some k ↦ itoa k ]
]

unfoldable mutual
  unfolding rewrite_reference

  pub rewrite_reference_value : ℕ → Value → Value
  rewrite_reference_value root (str s) = str (rewrite_reference root s)
  rewrite_reference_value root (arr xs) = arr (rewrite_items root xs)
  rewrite_reference_value root (obj fs) = obj (rewrite_fields root fs)
  rewrite_reference_value root v = v

  pub rewrite_items : ℕ → Items → Items
  rewrite_items root nil = nil
  rewrite_items root (cons x xs) = cons (rewrite_reference_value root x) (rewrite_items root xs)

  pub rewrite_fields : ℕ → Fields → Fields
  rewrite_fields root end = end
  rewrite_fields root (field key x fs) =
      field key (rewrite_reference_value root x) (rewrite_fields root fs)

abbrev pub or_null : Option Value → Value
or_null none = null
or_null (some v) = v

-- `values[0], values[root] = values[root], values[0]`
unfoldable pub swap_root : ℕ → List Value → List Value
unfolding put
swap_root root values =
    put root (or_null (get_elem? values 0)) (put 0 (or_null (get_elem? values root)) values)

unfoldable pub stringify : Value → List Value
unfolding flatten rewrite_reference_value swap_root
stringify v =
    let (root, s) = flatten v new_stringifier in
    if nat_eqb root 0
    then s.values
    else map (rewrite_reference_value root) (swap_root root s.values)
