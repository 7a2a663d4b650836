-- ===== src/Flatted/Table.antt =====
-- What the entries of the table of internal/flatted/flatted.go stand for.
use n8n_turbo.Prelude.{
  ℕ, zero, suc, ◌≤◌, ◌<◌, some, List, [], ◌∷◌, ◌++◌, length, get_elem?, ◌≡◌, ◌≢◌, ◌⊎◌, refl, ap,
  ◌∙◌, arith, inl, inr,
}
use n8n_turbo.Flatted.Decimal.{itoa}
use n8n_turbo.Flatted.Value.{
  Value, null, bool, number, str, arr, obj, cell, Items, nil, cons, Fields, end, field, put,
}

pub get_elem?-add :
    (xs : List Value) (x : Value) (i : ℕ)
    → i < length xs
    → get_elem? (xs ++ x ∷ []) i ≡ get_elem? xs i
get_elem?-add [] x i small = absurd (omega (arith, small))
get_elem?-add (y ∷ xs) x zero small = refl
get_elem?-add (y ∷ xs) x (suc i) small = get_elem?-add xs x i (omega (arith, small))

pub get_elem?-added : (xs : List Value) (x : Value) → get_elem? (xs ++ x ∷ []) (length xs) ≡ some x
get_elem?-added [] x = refl
get_elem?-added (y ∷ xs) x = get_elem?-added xs x

pub length-put : (i : ℕ) (x : Value) (xs : List Value) → length (put i x xs) ≡ length xs
unfolding put
length-put i x [] = refl
length-put zero x (y ∷ xs) = refl
length-put (suc i) x (y ∷ xs) = ap suc (length-put i x xs)

pub get_elem?-put :
    (i : ℕ) (x : Value) (xs : List Value) → i < length xs → get_elem? (put i x xs) i ≡ some x
unfolding put
get_elem?-put i x [] small = absurd (omega (arith, small))
get_elem?-put zero x (y ∷ xs) small = refl
get_elem?-put (suc i) x (y ∷ xs) small = get_elem?-put i x xs (omega (arith, small))

pub get_elem?-put_other :
    (i j : ℕ) (x : Value) (xs : List Value) → j ≢ i → get_elem? (put i x xs) j ≡ get_elem? xs j
unfolding put
get_elem?-put_other i j x [] other = refl
get_elem?-put_other zero zero x (y ∷ xs) other = absurd (other refl)
get_elem?-put_other zero (suc j) x (y ∷ xs) other = refl
get_elem?-put_other (suc i) zero x (y ∷ xs) other = refl
get_elem?-put_other (suc i) (suc j) x (y ∷ xs) other =
    get_elem?-put_other i j x xs (λ e. other (ap suc e))

-- The values that the indices stand for.
abbrev pub Values : Type 0
Values = ℕ → Value

-- In an entry at index `k`, `r` stands for `x`: `null` for itself, and else the number of an index, which
-- is a later one unless `x` is the empty slice.
module _ (val : Values) (bound k : ℕ) where
  abbrev pub Ref : Value → Value → Type 0
  Ref r x =
      ((x ≡ null) × (r ≡ null))
      ⊎ ((i : ℕ) × (i < bound) × (r ≡ str (itoa i)) × ((k < i) ⊎ (x ≡ arr nil)) × (val i ≡ x))

  abbrev pub Refs : Items → Items → Type 0
  Refs nil nil = Unit
  Refs nil (cons x xs) = ⊥
  Refs (cons r rs) nil = ⊥
  Refs (cons r rs) (cons x xs) = Ref r x × Refs rs xs

  abbrev pub RefFields : Fields → Fields → Type 0
  RefFields end end = Unit
  RefFields end (field key x fs) = ⊥
  RefFields (field key r rs) end = ⊥
  RefFields (field key r rs) (field key' x fs) = (key ≡ key') × Ref r x × RefFields rs fs

  -- The entry `t` stands for the value.
  abbrev pub Encodes : Value → Value → Type 0
  Encodes t (arr xs) = (rs : Items) × (t ≡ arr rs) × Refs rs xs
  Encodes t (obj fs) = (rs : Fields) × (t ≡ obj rs) × RefFields rs fs
  Encodes t v = t ≡ v

-- More entries leave it so.
module _ (val val' : Values) (bound bound' k : ℕ) (same : (i : ℕ) → i < bound → val' i ≡ val i)
    (more : bound ≤ bound') where
  pub Ref-later : (r x : Value) → Ref val bound k r x → Ref val' bound' k r x
  Ref-later r x (inl h) = inl h
  Ref-later r x (inr (i, small, eq, where_, is)) =
      inr (i, omega (arith, small, more), eq, where_, same i small ∙ is)

  pub Refs-later : (rs xs : Items) → Refs val bound k rs xs → Refs val' bound' k rs xs
  Refs-later nil nil h = tt
  Refs-later nil (cons x xs) h = h
  Refs-later (cons r rs) nil h = h
  Refs-later (cons r rs) (cons x xs) (h, hs) = (Ref-later r x h, Refs-later rs xs hs)

  pub RefFields-later :
      (rs fs : Fields) → RefFields val bound k rs fs → RefFields val' bound' k rs fs
  RefFields-later end end h = tt
  RefFields-later end (field key x fs) h = h
  RefFields-later (field key r rs) end h = h
  RefFields-later (field key r rs) (field key' x fs) (eq, h, hs) =
      (eq, Ref-later r x h, RefFields-later rs fs hs)

  pub Encodes-later : (t v : Value) → Encodes val bound k t v → Encodes val' bound' k t v
  Encodes-later t (arr xs) (rs, eq, h) = (rs, eq, Refs-later rs xs h)
  Encodes-later t (obj fs) (rs, eq, h) = (rs, eq, RefFields-later rs fs h)
  Encodes-later t null h = h
  Encodes-later t (bool b) h = h
  Encodes-later t (number n) h = h
  Encodes-later t (str s) h = h
  Encodes-later t (cell i) h = h
