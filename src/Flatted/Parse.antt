-- ===== src/Flatted/Parse.antt =====
-- `Parse` of internal/flatted/flatted.go after `json.Decode`, and `IsFlattedJSON`.
use n8n_turbo.Prelude.{
  ℕ, zero, suc, Bool, true, false, String, Option, none, some, List, [], ◌∷◌, length, get_elem?,
  if◌then◌else◌, nat_eqb, ltb, ℤ, pos, negsuc,
}
use n8n_turbo.Cron.Text.{atoi}
use n8n_turbo.Flatted.Value.{Value, null, str, arr, obj, cell, Items, nil, cons, Fields, end, field}

pub data ParseError : Type 0 where
  bad_json empty_array bad_root root_out_of_range : ParseError
  out_of_range : ℕ → ParseError

-- `out_of_fuel` is none of the code's ends.
pub data Outcome (A : Type 0) : Type 0 where
  done : A → Outcome A
  failed : ParseError → Outcome A
  out_of_fuel : Outcome A

abbrev pub and_then : {A B : Type 0} → Outcome A → (A → Outcome B) → Outcome B
and_then (done a) f = f a
and_then (failed e) f = failed e
and_then out_of_fuel f = out_of_fuel

-- `seen` and `cache` at each index
abbrev pub Cache : Type 0
Cache = ℕ → Option Value

abbrev pub empty_cache : Cache
empty_cache i = none

unfoldable pub remember : ℕ → Value → Cache → Cache
remember index v cache i = if nat_eqb i index then some v else cache i

-- A value that the parser makes, and the cache after it.
abbrev pub Made : Type 0 → Type 0
Made A = Outcome (A × Cache)

abbrev pub Maker : Type 0
Maker = ℕ → Cache → Made Value

-- A string, by what `strconv.Atoi` makes of it.
unfoldable pub resolve_string : Maker → ℕ → String → Cache → Option ℤ → Made Value
resolve_string make n s cache none = done (str s, cache)
resolve_string make n s cache (some (negsuc i)) = done (str s, cache)
resolve_string make n s cache (some (pos i)) = if ltb i n then make i cache else done (str s, cache)

-- `resolve`, with `reconstruct` and the number of values
unfoldable mutual
  unfolding resolve_string

  pub resolve : Maker → ℕ → Value → Cache → Made Value
  resolve make n (str s) cache = resolve_string make n s cache (atoi s)
  resolve make n (arr xs) cache =
      and_then (resolve_items make n xs cache) (λ r. done (arr r.0, r.1))
  resolve make n (obj fs) cache =
      and_then (resolve_fields make n fs cache) (λ r. done (obj r.0, r.1))
  resolve make n v cache = done (v, cache)

  pub resolve_items : Maker → ℕ → Items → Cache → Made Items
  resolve_items make n nil cache = done (nil, cache)
  resolve_items make n (cons x xs) cache =
      and_then (resolve make n x cache)
        (λ r. and_then (resolve_items make n xs r.1) (λ rs. done (cons r.0 rs.0, rs.1)))

  pub resolve_fields : Maker → ℕ → Fields → Cache → Made Fields
  resolve_fields make n end cache = done (end, cache)
  resolve_fields make n (field key x fs) cache =
      and_then (resolve make n x cache)
        (λ r. and_then (resolve_fields make n fs r.1) (λ rs. done (field key r.0 rs.0, rs.1)))

-- The decoded value of an index that is not seen yet.
unfoldable pub build : Maker → ℕ → ℕ → Value → Cache → Made Value
unfolding resolve remember
build make n index (obj fs) cache =
    and_then (resolve_fields make n fs (remember index (cell index) cache))
      (λ r. done (obj r.0, remember index (obj r.0) r.1))
build make n index (arr xs) cache =
    and_then (resolve_items make n xs (remember index (cell index) cache))
      (λ r. done (arr r.0, remember index (arr r.0) r.1))
build make n index v cache = done (v, remember index v cache)

-- By the value of the index and what the cache has for it.
unfoldable pub reconstruct_at : Maker → ℕ → ℕ → Cache → Option Value → Option Value → Made Value
unfolding build
reconstruct_at make n index cache none w = failed (out_of_range index)
reconstruct_at make n index cache (some v) (some w) = done (w, cache)
reconstruct_at make n index cache (some v) none = build make n index v cache

unfoldable pub reconstruct : ℕ → List Value → Maker
unfolding reconstruct_at
reconstruct zero values index cache = out_of_fuel
reconstruct (suc fuel) values index cache =
    reconstruct_at (reconstruct fuel values) (length values) index cache (get_elem? values index)
      (cache index)

-- Each call that is under way has an index of its own, and one may find the last of them seen.
unfoldable pub parse_from : List Value → ℕ → Outcome Value
unfolding reconstruct
parse_from values root =
    and_then (reconstruct (suc (length values)) values root empty_cache) (λ r. done r.0)

-- `json.Unmarshal` of a value into a string, which takes `null` as well.
abbrev pub as_string : Value → Option String
as_string (str s) = some s
as_string null = some ""
as_string v = none

unfoldable pub parse_root : String → List Value → Outcome Value
unfolding parse_from
parse_root root values = elim (atoi root) [
  | none ↦ failed bad_root
  | some (negsuc i) ↦ failed root_out_of_range
  | some (pos i) ↦ if ltb i (length values) then parse_from values i else failed root_out_of_range
]

unfoldable pub parse_values : List Value → Outcome Value
unfolding parse_root
parse_values [] = failed empty_array
parse_values (v ∷ values) = elim (as_string v) [
  | some root ↦ parse_root root values
  | none ↦ parse_from (v ∷ values) 0
]

-- A text that is no JSON array is `none`.
unfoldable pub parse : Option (List Value) → Outcome Value
unfolding parse_values
parse none = failed bad_json
parse (some raw) = parse_values raw

unfoldable pub is_flatted_json : Option (List Value) → Bool
is_flatted_json none = false
is_flatted_json (some []) = false
is_flatted_json (some (str s ∷ values)) = true
is_flatted_json (some (null ∷ values)) = true
is_flatted_json (some (obj fs ∷ values)) = true
is_flatted_json (some (arr xs ∷ values)) = true
is_flatted_json (some (v ∷ values)) = false
