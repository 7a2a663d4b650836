-- ===== src/Flatted/Entries.antt =====
-- `flatten` of internal/flatted/flatted.go at each kind of value.
use n8n_turbo.Prelude.{
  ℕ, suc, ◌≤◌, ◌<◌, true, Option, none, some, List, [], ◌∷◌, ◌++◌, length, ◌≡◌, ◌⊎◌, refl, sym,
  subst, ap, ◌∙◌, arith, inl, inr, if◌then◌else◌, Bool-cases,
}
use n8n_turbo.Flatted.Decimal.{itoa}
use n8n_turbo.Flatted.Value.{
  Value, null, bool, number, str, arr, obj, cell, Items, nil, cons, Fields, end, field,
}
use n8n_turbo.Flatted.Stringify.{
  Stringifier, add, remember_slice, reserve, store, flatten, encode_slice, encode_map,
  flatten_reference, is_null,
}
use n8n_turbo.Flatted.Table.{Values, Ref, Refs, RefFields, Encodes, Ref-later, length-put}
use n8n_turbo.Flatted.Flattening.{
  SeenEmpty, Grown, Grown-refl, Grown-trans, with_value, with_value-same, with_value-other,
  length-add, add-Grown, store-Grown,
}

-- What comes of the flattening of a value: it has an index, which is new but for the empty slice's.
abbrev pub Placed : Value → Stringifier → Values → ℕ × Stringifier → Type 0
Placed v s val (index, s') =
    (val' : Values) × Grown s val s' val'
    × (index < length s'.values)
    × ((length s.values ≤ index) ⊎ (v ≡ arr nil))
    × (val' index ≡ v)

abbrev Referred : Value → ℕ → Stringifier → Values → Value × Stringifier → Type 0
Referred x k s val (ref, s') =
    (val' : Values) × Grown s val s' val' × Ref val' (length s'.values) k ref x

abbrev ReferredItems : Items → ℕ → Stringifier → Values → Items × Stringifier → Type 0
ReferredItems xs k s val (refs, s') =
    (val' : Values) × Grown s val s' val' × Refs val' (length s'.values) k refs xs

abbrev ReferredFields : Fields → ℕ → Stringifier → Values → Fields × Stringifier → Type 0
ReferredFields fs k s val (refs, s') =
    (val' : Values) × Grown s val s' val' × RefFields val' (length s'.values) k refs fs

is_null-null : (x : Value) → is_null x ≡ true → x ≡ null
is_null-null x h = ground (arith, h)

module _ (s : Stringifier) (val : Values) (h : SeenEmpty s val) where
  add-Placed :
      (v : Value)
      → ((b : ℕ) (val' : Values) → Encodes val' b (length s.values) v v)
      → Placed v s val (add v s)
  unfolding add
  add-Placed v leaf = (
    with_value (length s.values) v val,
    add-Grown s val v h leaf,
    omega (arith, length-add s.values v),
    inl (omega arith),
    with_value-same (length s.values) v val,
  )

  reserve-SeenEmpty : (v : Value) → SeenEmpty (reserve s) (with_value (length s.values) v val)
  unfolding reserve
  reserve-SeenEmpty v e found =
      let (small, is) = h e found in
      (
        omega (arith, small, length-add s.values null),
        with_value-other (length s.values) e v val small ∙ is,
      )

  -- A map or slice that is not seen, whose parts are in order.
  store-Placed :
      (mid s' : Stringifier) (val' : Values) (v t : Value)
      → mid.values ≡ s.values ++ null ∷ []
      → Grown mid (with_value (length s.values) v val) s' val'
      → Encodes val' (length s'.values) (length s.values) t v
      → Placed v s val (length s.values, store (length s.values) t s')
  unfolding store
  store-Placed mid s' val' v t reserved parts fits =
      let grown : Grown s val (store (length s.values) t s') val' =
        store-Grown s mid s' val val' v t reserved parts fits in
      let at : length mid.values ≡ suc (length s.values) =
        ap length reserved ∙ length-add s.values null in
      (
        val',
        grown,
        omega (arith, length-put (length s.values) t s'.values, parts.more, at),
        inl (omega arith),
        parts.same (length s.values) (omega (arith, at)) ∙ with_value-same (length s.values) v val,
      )

  reference-Referred :
      (x : Value) (k : ℕ)
      → k < length s.values
      → Placed x s val (flatten x s)
      → Referred x k s val (flatten_reference x s (flatten x s))
  unfolding flatten_reference
  reference-Referred x k before (val', grown, small, place, is) = elim (Bool-cases (is_null x)) [
    | inl nothing ↦
        let eq : flatten_reference x s (flatten x s) ≡ (null, s) =
          ap (λ b. if b then (null, s) else (str (itoa (flatten x s).0), (flatten x s).1))
            nothing in
        subst (Referred x k s val) (sym eq)
          (val, Grown-refl s val h, inl (is_null-null x nothing, refl))
    | inr other ↦
        let eq : flatten_reference x s (flatten x s)
            ≡ (str (itoa (flatten x s).0), (flatten x s).1) =
          ap (λ b. if b then (null, s) else (str (itoa (flatten x s).0), (flatten x s).1)) other in
        subst (Referred x k s val) (sym eq)
          (val', grown, inr ((flatten x s).0, small, refl, later k before place, is))
  ]
    where
      later :
          (k : ℕ)
          → k < length s.values
          → (length s.values ≤ (flatten x s).0) ⊎ (x ≡ arr nil)
          → (k < (flatten x s).0) ⊎ (x ≡ arr nil)
      later k before (inl new) = inl (omega (arith, before, new))
      later k before (inr empty) = inr empty

empty_slice-Placed :
    (values : List Value) (seen : Option ℕ) (val : Values)
    → SeenEmpty (record { values = values; seen = seen }) val
    → Placed
        (arr nil)
        (record { values = values; seen = seen })
        val
        (flatten (arr nil) (record { values = values; seen = seen }))
unfolding flatten
empty_slice-Placed values (some e) val h =
    let (small, is) = h e refl in
    (val, Grown-refl (record { values = values; seen = some e }) val h, small, inr refl, is)
empty_slice-Placed values none val h =
    let s : Stringifier = record { values = values; seen = none } in
    let mid : Stringifier = reserve (remember_slice nil s) in
    let new : SeenEmpty mid (with_value (length values) (arr nil) val) = λ e found.
      let at : e ≡ length values = ground (arith, found) in
      (
        omega (arith, at, length-add values null),
        ap (with_value (length values) (arr nil) val) at
            ∙ with_value-same (length values) (arr nil) val,
      ) in
    store-Placed s val h mid mid (with_value (length values) (arr nil) val) (arr nil) (arr nil) refl
      (Grown-refl mid (with_value (length values) (arr nil) val) new) (nil, refl, tt)

mutual
  unfolding flatten

  pub flatten-Placed :
      (v : Value) (s : Stringifier) (val : Values) → SeenEmpty s val → Placed v s val (flatten v s)
  flatten-Placed null s val h = add-Placed s val h null (λ b val'. refl)
  flatten-Placed (bool b) s val h = add-Placed s val h (bool b) (λ b' val'. refl)
  flatten-Placed (number n) s val h = add-Placed s val h (number n) (λ b val'. refl)
  flatten-Placed (str t) s val h = add-Placed s val h (str t) (λ b val'. refl)
  flatten-Placed (cell k) s val h = add-Placed s val h (cell k) (λ b val'. refl)
  flatten-Placed (arr nil) s val h = empty_slice-Placed s.values s.seen val h
  flatten-Placed (arr (cons x xs)) s val h =
      let (val', grown, refs) =
        encode_slice-Referred (cons x xs) (length s.values) (reserve s)
          (with_value (length s.values) (arr (cons x xs)) val)
          (reserve-SeenEmpty s val h (arr (cons x xs))) (omega (arith, length-add s.values null)) in
      store-Placed s val h (reserve s) (encode_slice (cons x xs) (reserve s)).1 val'
        (arr (cons x xs)) (arr (encode_slice (cons x xs) (reserve s)).0) refl grown
        ((encode_slice (cons x xs) (reserve s)).0, refl, refs)
  flatten-Placed (obj fs) s val h =
      let (val', grown, refs) =
        encode_map-Referred fs (length s.values) (reserve s)
          (with_value (length s.values) (obj fs) val) (reserve-SeenEmpty s val h (obj fs))
          (omega (arith, length-add s.values null)) in
      store-Placed s val h (reserve s) (encode_map fs (reserve s)).1 val' (obj fs)
        (obj (encode_map fs (reserve s)).0) refl grown ((encode_map fs (reserve s)).0, refl, refs)

  encode_slice-Referred :
      (xs : Items) (k : ℕ) (s : Stringifier) (val : Values)
      → SeenEmpty s val
      → k < length s.values
      → ReferredItems xs k s val (encode_slice xs s)
  encode_slice-Referred nil k s val h before = (val, Grown-refl s val h, tt)
  encode_slice-Referred (cons x xs) k s val h before =
      let s' : Stringifier = (flatten_reference x s (flatten x s)).1 in
      let (val', grown, r) = reference-Referred s val h x k before (flatten-Placed x s val h) in
      let (val'', grown', rs) =
        encode_slice-Referred xs k s' val' grown.seen_empty (omega (arith, before, grown.more)) in
      (
        val'',
        Grown-trans grown grown',
        (
          Ref-later val' val'' (length s'.values) (length (encode_slice xs s').1.values) k
              grown'.same grown'.more (flatten_reference x s (flatten x s)).0 x r,
          rs,
        ),
      )

  encode_map-Referred :
      (fs : Fields) (k : ℕ) (s : Stringifier) (val : Values)
      → SeenEmpty s val
      → k < length s.values
      → ReferredFields fs k s val (encode_map fs s)
  encode_map-Referred end k s val h before = (val, Grown-refl s val h, tt)
  encode_map-Referred (field key x fs) k s val h before =
      let s' : Stringifier = (flatten_reference x s (flatten x s)).1 in
      let (val', grown, r) = reference-Referred s val h x k before (flatten-Placed x s val h) in
      let (val'', grown', rs) =
        encode_map-Referred fs k s' val' grown.seen_empty (omega (arith, before, grown.more)) in
      (
        val'',
        Grown-trans grown grown',
        (
          refl,
          Ref-later val' val'' (length s'.values) (length (encode_map fs s').1.values) k grown'.same
              grown'.more (flatten_reference x s (flatten x s)).0 x r,
          rs,
        ),
      )
