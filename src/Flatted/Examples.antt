-- ===== src/Flatted/Examples.antt =====
-- The theorems on internal/flatted/flatted.go at small values.
use n8n_turbo.Prelude.{true, some, [], ◌∷◌, ◌≡◌, ◌≢◌, refl, arith}
use n8n_turbo.Flatted.Value.{Value, cell, str, arr, obj, nil, cons, end, field}
use n8n_turbo.Flatted.Decimal.{itoa, digits, digit}
use n8n_turbo.Cron.Text.{atoi, unsigned, read_digits}
use n8n_turbo.Flatted.Stringify.{stringify, flatten, flatten_reference, add, reserve, store}
use n8n_turbo.Flatted.Value.{put}
use n8n_turbo.Flatted.Parse.{
  ParseError, done, failed, out_of_fuel, parse, is_flatted_json, reconstruct, reconstruct_at, build,
  resolve, resolve_string, remember,
}
use n8n_turbo.Flatted.RoundTrip.{parse-stringify, parse-stringify_text}
use n8n_turbo.Flatted.Termination.{parse-ends}

-- A map with a text that is a number, and two empty slices.
abbrev sample : Value
sample = obj (field "a" (str "1") (field "b" (arr (cons (arr nil) (cons (arr nil) nil))) end))

parse-stringify_example : parse (some (stringify sample)) ≡ done sample
unfolding stringify flatten flatten_reference add reserve store put
parse-stringify_example = parse-stringify sample refl (omega arith)

parse-stringify_text_example :
    ((e : ParseError) × (parse (some (stringify (str "0"))) ≡ failed e))
    × (is_flatted_json (some (stringify (str "0"))) ≡ true)
parse-stringify_text_example = parse-stringify_text (str "0") "0" refl

parse-ends_example : parse (some (arr (cons (str "0") nil) ∷ [])) ≢ out_of_fuel
parse-ends_example = parse-ends (some (arr (cons (str "0") nil) ∷ []))

-- Both empty slices are one entry.
stringify_two_empty :
    stringify (arr (cons (arr nil) (cons (str "a") (cons (arr nil) nil))))
    ≡ arr (cons (str "1") (cons (str "2") (cons (str "1") nil))) ∷ arr nil ∷ str "a" ∷ []
unfolding stringify flatten flatten_reference add reserve store put itoa digits digit
stringify_two_empty = refl

-- A slice that has itself as its first element, and a text.
parse_cycle :
    parse (some (arr (cons (str "0") (cons (str "1") nil)) ∷ str "5" ∷ []))
    ≡ done (arr (cons (cell 0) (cons (str "5") nil)))
unfolding parse reconstruct reconstruct_at build resolve resolve_string remember atoi unsigned
    read_digits
parse_cycle = refl

itoa_205 : itoa 205 ≡ "205"
unfolding itoa digits digit
itoa_205 = refl
