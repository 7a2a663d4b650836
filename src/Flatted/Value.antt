-- ===== src/Flatted/Value.antt =====
-- The values that `json.Decode` makes, which `normalize` of internal/flatted/flatted.go returns, and
-- the list of them that is the JSON array of a flattened text.
use n8n_turbo.Prelude.{ℕ, zero, suc, Bool, String, List, [], ◌∷◌}

-- `number` is a `json.Number` with its text. The fields of a map are in an order that `range` may take.
-- `cell` is a pointer to the map or slice that the parser makes of the value at that index, while it
-- is not complete.
mutual
  pub data Value : Type 0 where
    null : Value
    bool : Bool → Value
    number : String → Value
    str : String → Value
    arr : Items → Value
    obj : Fields → Value
    cell : ℕ → Value

  pub data Items : Type 0 where
    nil : Items
    cons : Value → Items → Items

  pub data Fields : Type 0 where
    end : Fields
    field : String → Value → Fields → Fields

-- `values[index] = value`
unfoldable pub put : ℕ → Value → List Value → List Value
put index value [] = []
put zero value (v ∷ values) = value ∷ values
put (suc index) value (v ∷ values) = v ∷ put index value values
