-- ===== src/Flatted/Termination.antt =====
-- The recursion of `reconstruct` in internal/flatted/flatted.go ends: each call that goes on marks an
-- index that was not seen.
use n8n_turbo.Prelude.{
  String, ℕ, zero, suc, ◌≤◌, ◌<◌, Option, none, some, List, [], ◌∷◌, length, get_elem?, ◌≡◌, ◌≢◌,
  refl, arith, if◌then◌else◌, ltb, ℤ, pos, negsuc, Option-cases, inl, inr, true, false,
}
use n8n_turbo.Cron.Text.{atoi}
use n8n_turbo.Flatted.Value.{
  Value, null, bool, number, str, arr, obj, cell, Items, nil, cons, Fields, end, field,
}
use n8n_turbo.Flatted.Parse.{
  done, failed, out_of_fuel, and_then, Cache, empty_cache, remember, Made, Maker, resolve_string,
  resolve, resolve_items, resolve_fields, build, reconstruct_at, reconstruct, parse_from,
  parse_root, parse_values, parse, as_string,
}
use n8n_turbo.Flatted.Seen.{
  unseen, Grows, unseen-le, remember-Grows, unseen-remember, Ends, and_then-Ends, Ends-weaken,
  get_elem?-small,
}

-- `make` ends wherever less than `bound` indices are not seen.
module _ (make : Maker) (n bound : ℕ)
    (make-Ends : (i : ℕ) (cache : Cache) → unseen n cache < bound → Ends cache (make i cache)) where
  resolve_string-Ends :
      (s : String) (cache : Cache) (i : Option ℤ)
      → unseen n cache < bound
      → Ends cache (resolve_string make n s cache i)
  unfolding resolve_string Ends
  resolve_string-Ends s cache none few = λ i empty. empty
  resolve_string-Ends s cache (some (negsuc k)) few = λ i empty. empty
  resolve_string-Ends s cache (some (pos k)) few =
      elim (ltb k n) as (λ b. Ends cache (if b then make k cache else done (str s, cache))) [
        | true ↦ make-Ends k cache few
        | false ↦ λ i empty. empty
      ]

  mutual
    unfolding resolve Ends

    resolve-Ends :
        (v : Value) (cache : Cache) → unseen n cache < bound → Ends cache (resolve make n v cache)
    resolve-Ends (str s) cache few = resolve_string-Ends s cache (atoi s) few
    resolve-Ends (arr xs) cache few =
        and_then-Ends cache (resolve_items make n xs cache) (λ r. done (arr r.0, r.1))
          (resolve_items-Ends xs cache few) (λ r grows. grows)
    resolve-Ends (obj fs) cache few =
        and_then-Ends cache (resolve_fields make n fs cache) (λ r. done (obj r.0, r.1))
          (resolve_fields-Ends fs cache few) (λ r grows. grows)
    resolve-Ends null cache few = λ i empty. empty
    resolve-Ends (bool b) cache few = λ i empty. empty
    resolve-Ends (number t) cache few = λ i empty. empty
    resolve-Ends (cell k) cache few = λ i empty. empty

    resolve_items-Ends :
        (xs : Items) (cache : Cache)
        → unseen n cache < bound
        → Ends cache (resolve_items make n xs cache)
    resolve_items-Ends nil cache few = λ i empty. empty
    resolve_items-Ends (cons x xs) cache few =
        and_then-Ends cache (resolve make n x cache)
          (λ r. and_then (resolve_items make n xs r.1) (λ rs. done (cons r.0 rs.0, rs.1)))
          (resolve-Ends x cache few)
          (λ r grows.
            Ends-weaken cache r.1
              (and_then (resolve_items make n xs r.1) (λ rs. done (cons r.0 rs.0, rs.1))) grows
              (and_then-Ends r.1 (resolve_items make n xs r.1) (λ rs. done (cons r.0 rs.0, rs.1))
                (resolve_items-Ends xs r.1 (omega (arith, few, unseen-le n cache r.1 grows)))
                (λ rs more. more)))

    resolve_fields-Ends :
        (fs : Fields) (cache : Cache)
        → unseen n cache < bound
        → Ends cache (resolve_fields make n fs cache)
    resolve_fields-Ends end cache few = λ i empty. empty
    resolve_fields-Ends (field key x fs) cache few =
        and_then-Ends cache (resolve make n x cache)
          (λ r. and_then (resolve_fields make n fs r.1) (λ rs. done (field key r.0 rs.0, rs.1)))
          (resolve-Ends x cache few)
          (λ r grows.
            Ends-weaken cache r.1
              (and_then (resolve_fields make n fs r.1) (λ rs. done (field key r.0 rs.0, rs.1)))
              grows
              (and_then-Ends r.1 (resolve_fields make n fs r.1)
                (λ rs. done (field key r.0 rs.0, rs.1))
                (resolve_fields-Ends fs r.1 (omega (arith, few, unseen-le n cache r.1 grows)))
                (λ rs more. more)))

  build-Ends :
      (index : ℕ) (v : Value) (cache : Cache)
      → index < n
      → cache index ≡ none
      → unseen n cache < suc bound
      → Ends cache (build make n index v cache)
  unfolding build Ends
  build-Ends index (arr xs) cache small empty few =
      let grows : Grows cache (remember index (cell index) cache) =
        remember-Grows index (cell index) cache in
      Ends-weaken cache (remember index (cell index) cache)
        (and_then (resolve_items make n xs (remember index (cell index) cache))
          (λ r. done (arr r.0, remember index (arr r.0) r.1)))
        grows
        (and_then-Ends (remember index (cell index) cache)
          (resolve_items make n xs (remember index (cell index) cache))
          (λ r. done (arr r.0, remember index (arr r.0) r.1))
          (resolve_items-Ends xs (remember index (cell index) cache)
            (omega (arith, few, unseen-remember n index (cell index) cache small empty)))
          (λ r more i none_there. more i (remember-Grows index (arr r.0) r.1 i none_there)))
  build-Ends index (obj fs) cache small empty few =
      let grows : Grows cache (remember index (cell index) cache) =
        remember-Grows index (cell index) cache in
      Ends-weaken cache (remember index (cell index) cache)
        (and_then (resolve_fields make n fs (remember index (cell index) cache))
          (λ r. done (obj r.0, remember index (obj r.0) r.1)))
        grows
        (and_then-Ends (remember index (cell index) cache)
          (resolve_fields make n fs (remember index (cell index) cache))
          (λ r. done (obj r.0, remember index (obj r.0) r.1))
          (resolve_fields-Ends fs (remember index (cell index) cache)
            (omega (arith, few, unseen-remember n index (cell index) cache small empty)))
          (λ r more i none_there. more i (remember-Grows index (obj r.0) r.1 i none_there)))
  build-Ends index null cache small empty few = remember-Grows index null cache
  build-Ends index (bool b) cache small empty few = remember-Grows index (bool b) cache
  build-Ends index (number t) cache small empty few = remember-Grows index (number t) cache
  build-Ends index (str s) cache small empty few = remember-Grows index (str s) cache
  build-Ends index (cell k) cache small empty few = remember-Grows index (cell k) cache

  reconstruct_at-Ends :
      (index : ℕ) (cache : Cache) (v w : Option Value)
      → ((x : Value) → v ≡ some x → index < n)
      → cache index ≡ w
      → unseen n cache < suc bound
      → Ends cache (reconstruct_at make n index cache v w)
  unfolding reconstruct_at Ends
  reconstruct_at-Ends index cache none w inside known few = tt
  reconstruct_at-Ends index cache (some v) (some w) inside known few = λ i empty. empty
  reconstruct_at-Ends index cache (some v) none inside known few =
      build-Ends index v cache (inside v refl) known few

reconstruct-Ends :
    (fuel : ℕ) (values : List Value) (index : ℕ) (cache : Cache)
    → unseen (length values) cache < fuel
    → Ends cache (reconstruct fuel values index cache)
unfolding reconstruct
reconstruct-Ends zero values index cache enough = absurd (omega (arith, enough))
reconstruct-Ends (suc fuel) values index cache enough =
    reconstruct_at-Ends (reconstruct fuel values) (length values) fuel
      (λ i after few. reconstruct-Ends fuel values i after few) index cache (get_elem? values index)
      (cache index) (get_elem?-small values index) refl enough

unseen-le_all : (n : ℕ) (cache : Cache) → unseen n cache ≤ n
unfolding unseen
unseen-le_all zero cache = omega arith
unseen-le_all (suc n) cache = ground (arith, unseen-le_all n cache)

not_out_of_fuel :
    {A : Type 0} (cache : Cache) (m : Made A)
    → Ends cache m
    → and_then m (λ r. done r.0) ≢ out_of_fuel
unfolding Ends
not_out_of_fuel cache (done r) ends e = ground (arith, e)
not_out_of_fuel cache (failed x) ends e = ground (arith, e)
not_out_of_fuel cache out_of_fuel ends e = ends

parse_from-ends : (values : List Value) (root : ℕ) → parse_from values root ≢ out_of_fuel
unfolding parse_from
parse_from-ends values root =
    not_out_of_fuel empty_cache (reconstruct (suc (length values)) values root empty_cache) (
      reconstruct-Ends (suc (length values)) values root empty_cache
        (omega (arith, unseen-le_all (length values) empty_cache)))

parse_root-ends : (root : String) (values : List Value) → parse_root root values ≢ out_of_fuel
unfolding parse_root
parse_root-ends root values e = elim (Option-cases (atoi root)) [
  | inl bad ↦ ground (arith, e, bad)
  | inr (pos i, eq) ↦ ground (arith, e, eq, parse_from-ends values i)
  | inr (negsuc i, eq) ↦ ground (arith, e, eq)
]

-- Whatever the text has, also references that lead back to where they stand, no call of `reconstruct`
-- goes deeper than there are values, and one more: `Parse` ends with a value or one of its errors.
pub parse-ends : (raw : Option (List Value)) → parse raw ≢ out_of_fuel
unfolding parse parse_values
parse-ends none e = ground (arith, e)
parse-ends (some []) e = ground (arith, e)
parse-ends (some (v ∷ values)) e = elim (Option-cases (as_string v)) [
  | inl other ↦ ground (arith, e, other, parse_from-ends (v ∷ values) 0)
  | inr (root, eq) ↦ ground (arith, e, eq, parse_root-ends root values)
]
