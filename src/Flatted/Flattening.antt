-- ===== src/Flatted/Flattening.antt =====
-- The entries that `flatten` of internal/flatted/flatted.go adds stand for the value and its parts.
use n8n_turbo.Prelude.{
  ℕ, suc, ◌≤◌, ◌<◌, some, List, [], ◌∷◌, ◌++◌, length, length-append, get_elem?, ◌≡◌, ◌≢◌, refl,
  sym, subst, ap, ◌∙◌, arith, inl, inr, if◌then◌else◌, nat_eqb, nat_eqb_iff, Bool-cases, ltb,
  ltb→lt,
}
use n8n_turbo.Flatted.Value.{Value, null, arr, nil, put}
use n8n_turbo.Flatted.Stringify.{Stringifier, add, store}
use n8n_turbo.Flatted.Table.{
  Values, Encodes, Encodes-later, get_elem?-add, get_elem?-added, length-put, get_elem?-put,
  get_elem?-put_other,
}

-- The index in `seen` stands for the empty slice.
abbrev pub SeenEmpty : Stringifier → Values → Type 0
SeenEmpty s val = (e : ℕ) → s.seen ≡ some e → (e < length s.values) × (val e ≡ arr nil)

-- Entries were added, each of which stands for a value.
pub record Grown (s : Stringifier) (val : Values) (s' : Stringifier) (val' : Values) : Type 0 where
  pub more : length s.values ≤ length s'.values
  pub kept : (j : ℕ) → j < length s.values → get_elem? s'.values j ≡ get_elem? s.values j
  pub same : (j : ℕ) → j < length s.values → val' j ≡ val j
  pub entry :
      (j : ℕ)
      → length s.values ≤ j
      → j < length s'.values
      → (t : Value) × (get_elem? s'.values j ≡ some t)
        × Encodes val' (length s'.values) j t (val' j)
  pub seen_empty : SeenEmpty s' val'

pub Grown-refl : (s : Stringifier) (val : Values) → SeenEmpty s val → Grown s val s val
Grown-refl s val h = record {
  more = omega arith;
  kept = λ j small. refl;
  same = λ j small. refl;
  entry = λ j large small. absurd (omega (arith, large, small));
  seen_empty = h;
}

module _ {s s' s'' : Stringifier} {val val' val'' : Values} (a : Grown s val s' val')
    (b : Grown s' val' s'' val'') where
  pub Grown-trans : Grown s val s'' val''
  Grown-trans = record {
    more = omega (arith, a.more, b.more);
    kept = λ j small. b.kept j (omega (arith, small, a.more)) ∙ a.kept j small;
    same = λ j small. b.same j (omega (arith, small, a.more)) ∙ a.same j small;
    entry = λ j large small. elim (Bool-cases (ltb j (length s'.values))) [
      | inl early ↦
          let below : j < length s'.values = ltb→lt j (length s'.values) early in
          let (t, at, h) = a.entry j large below in
          (
            t,
            b.kept j below ∙ at,
            subst (λ v. Encodes val'' (length s''.values) j t v) (sym (b.same j below))
                (Encodes-later val' val'' (length s'.values) (length s''.values) j b.same b.more t
                  (val' j) h),
          )
      | inr late ↦ b.entry j (ground (arith, late)) small
    ];
    seen_empty = b.seen_empty;
  }

-- The values with one more.
abbrev pub with_value : ℕ → Value → Values → Values
with_value k v val j = if nat_eqb j k then v else val j

pub with_value-same : (k : ℕ) (v : Value) (val : Values) → with_value k v val k ≡ v
with_value-same k v val = ground arith

pub with_value-other : (k j : ℕ) (v : Value) (val : Values) → j < k → with_value k v val j ≡ val j
with_value-other k j v val h = ground (arith, h)

pub length-add : (xs : List Value) (x : Value) → length (xs ++ x ∷ []) ≡ suc (length xs)
length-add xs x = omega (arith, length-append xs (x ∷ []))

-- What is added stands for itself.
pub add-Grown :
    (s : Stringifier) (val : Values) (v : Value)
    → SeenEmpty s val
    → ((b : ℕ) (val' : Values) → Encodes val' b (length s.values) v v)
    → Grown s val (add v s).1 (with_value (length s.values) v val)
unfolding add
add-Grown s val v h leaf = record {
  more = omega (arith, length-add s.values v);
  kept = λ j small. get_elem?-add s.values v j small;
  same = λ j small. with_value-other (length s.values) j v val small;
  entry = λ j large small.
      let here : j ≡ length s.values = omega (arith, large, small, length-add s.values v) in
      let is : with_value (length s.values) v val j ≡ v =
        ap (with_value (length s.values) v val) here ∙ with_value-same (length s.values) v val in
      (
        v,
        ap (get_elem? (s.values ++ v ∷ [])) here ∙ get_elem?-added s.values v,
        subst
            (λ w. Encodes (with_value (length s.values) v val) (length (s.values ++ v ∷ [])) j v w)
            (sym is)
            (subst
              (λ i.
                Encodes (with_value (length s.values) v val) (length (s.values ++ v ∷ [])) i v v)
              (sym here) (leaf (length (s.values ++ v ∷ [])) (with_value (length s.values) v val))),
      );
  seen_empty = λ e found.
      let (small, is) = h e found in
      (
        omega (arith, small, length-add s.values v),
        with_value-other (length s.values) e v val small ∙ is,
      );
}

-- What was reserved is filled, after the parts.
module _ (s mid s' : Stringifier) (val val' : Values) (v t : Value)
    (reserved : mid.values ≡ s.values ++ null ∷ [])
    (parts : Grown mid (with_value (length s.values) v val) s' val')
    (fits : Encodes val' (length s'.values) (length s.values) t v) where
  length_mid : length mid.values ≡ suc (length s.values)
  length_mid = ap length reserved ∙ length-add s.values null

  length_end : length (put (length s.values) t s'.values) ≡ length s'.values
  length_end = length-put (length s.values) t s'.values

  is_v : val' (length s.values) ≡ v
  is_v =
      parts.same (length s.values) (omega (arith, length_mid))
      ∙ with_value-same (length s.values) v val

  filled :
      (j : ℕ)
      → length s.values ≤ j
      → j < length s'.values
      → (t' : Value) × (get_elem? (put (length s.values) t s'.values) j ≡ some t')
        × Encodes val' (length s'.values) j t' (val' j)
  filled j large small = elim (Bool-cases (nat_eqb j (length s.values))) [
    | inl here ↦
        let eq : j ≡ length s.values = (nat_eqb_iff j (length s.values)).0 here in
        subst
          (λ i.
            (t' : Value) × (get_elem? (put (length s.values) t s'.values) i ≡ some t')
            × Encodes val' (length s'.values) i t' (val' i))
          (sym eq)
          (
            t,
            get_elem?-put (length s.values) t s'.values (omega (arith, small, large)),
            subst (λ w. Encodes val' (length s'.values) (length s.values) t w) (sym is_v) fits,
          )
    | inr other ↦
        let apart : j ≢ length s.values = λ e. ground (arith, other, e) in
        let (t', at, h) = parts.entry j (ground (arith, large, other, length_mid)) small in
        (t', get_elem?-put_other (length s.values) j t s'.values apart ∙ at, h)
  ]

  pub store-Grown : Grown s val (store (length s.values) t s') val'
  unfolding store
  store-Grown = record {
    more = omega (arith, length_end, length_mid, parts.more);
    kept = λ j small.
        get_elem?-put_other (length s.values) j t s'.values (λ e. omega (arith, e, small))
        ∙ (parts.kept j (omega (arith, small, length_mid))
            ∙ (ap (λ xs. get_elem? xs j) reserved ∙ get_elem?-add s.values null j small));
    same = λ j small.
        parts.same j (omega (arith, small, length_mid))
        ∙ with_value-other (length s.values) j v val small;
    entry = λ j large small.
        subst
          (λ b.
            (t' : Value) × (get_elem? (put (length s.values) t s'.values) j ≡ some t')
            × Encodes val' b j t' (val' j))
          (sym length_end) (filled j large (omega (arith, small, length_end)));
    seen_empty = λ e found.
        let (small, is) = parts.seen_empty e found in (omega (arith, small, length_end), is);
  }
