-- ===== src/Nodes/Pairs.antt =====
-- `mergeByFields` of internal/nodes/merge.go beside a join by two loops.
use mathlib.Core.List.{append_assoc, append-nil}
use n8n_turbo.Prelude.{
  ℕ, suc, ◌+◌, Bool, true, false, String, some, List, [], ◌∷◌, ◌++◌, ◌≡◌, refl, sym, ap, ◌∙◌, arith,
  if◌then◌else◌, get_elem?, ◌==◌, string_eq,
}
use n8n_turbo.Dataplane.Types.{Item}
use n8n_turbo.Nodes.Merge.{MergeParams, merge_items}
use n8n_turbo.Nodes.Join.{
  Merged, merged, Joined, each_match, keep_match, join_item, join_left, and_then, mark_left,
  is_input1, append_item, no_fields, unsupported_join, panicked,
}
use n8n_turbo.Nodes.Merge.{keep_matches, both}
use n8n_turbo.Nodes.Positions.{positions}

-- The items with the key, in order, each once or twice.
unfoldable pub with_key : Bool → (Item → String) → String → (Item → Item) → List Item → List Item
with_key twice key_of key f [] = []
with_key twice key_of key f (item ∷ items) =
    let rest = with_key twice key_of key f items in
    if key_of item == key then (if twice then f item ∷ f item ∷ rest else f item ∷ rest) else rest

-- Two loops: each left item with each right item of the same key.
unfoldable pub pairs :
    Bool
    → (Item → String)
    → (Item → String)
    → (Item → Item → Item)
    → List Item
    → List Item
    → List Item
unfolding with_key
pairs twice left_key right_key f [] right = []
pairs twice left_key right_key f (left ∷ lefts) right =
    with_key twice right_key (left_key left) (f left) right
    ++ pairs twice left_key right_key f lefts right

-- A loop that ends with this result.
abbrev pub Yields : Merged Joined → List Item → Type 0
Yields m items = (s : Joined) × (m ≡ merged s) × (s.result ≡ items)

abbrev result_of : Merged Joined → List Item
result_of (merged s) = s.result
result_of no_fields = []
result_of unsupported_join = []
result_of panicked = []

module _ (params : MergeParams) (right : List Item)
    (from_both : params.output_data_from ≡ both) where
  keep_match-result :
      (left item : Item) (i : ℕ) (s : Joined)
      → (keep_match params left i item s).result
        ≡ s.result ++ merge_items params.resolve_clash left item ∷ []
  unfolding keep_match
  keep_match-result left item i s = ground (arith, from_both)

  one_match :
      (left item : Item) (i : ℕ) (matches : List ℕ) (s : Joined) (items : List Item)
      → get_elem? right i ≡ some item
      → Yields
          (each_match false
            (keep_match params left)
            right
            matches
            (keep_match params left i item s))
          ((keep_match params left i item s).result ++ items)
      → Yields
          (each_match false (keep_match params left) right (i ∷ matches) s)
          (s.result ++ merge_items params.resolve_clash left item ∷ items)
  unfolding each_match
  one_match left item i matches s items at (s', eq, is) = (
    s',
    ground (arith, at, eq),
    is
        ∙ (ap (λ l. l ++ items) (keep_match-result left item i s)
            ∙ append_assoc s.result (merge_items params.resolve_clash left item ∷ []) items),
  )

  match_cases :
      (hit twice : Bool) (left item : Item) (i : ℕ) (matches : List ℕ) (items : List Item)
      → get_elem? right i ≡ some item
      → ((s : Joined)
          → Yields (each_match false (keep_match params left) right matches s) (s.result ++ items))
      → (s : Joined)
      → Yields
          (each_match false
            (keep_match params left)
            right
            (if hit then (if twice then i ∷ i ∷ matches else i ∷ matches) else matches)
            s)
          (s.result
            ++ (if hit
                then (if twice
                    then merge_items params.resolve_clash left item
                      ∷ merge_items params.resolve_clash left item
                      ∷ items
                    else merge_items params.resolve_clash left item ∷ items)
                else items))
  match_cases false twice left item i matches items at rest s = rest s
  match_cases true false left item i matches items at rest s =
      one_match left item i matches s items at (rest (keep_match params left i item s))
  match_cases true true left item i matches items at rest s =
      one_match left item i (i ∷ matches) s (merge_items params.resolve_clash left item ∷ items) at
        (one_match left item i matches (keep_match params left i item s) items at
          (rest (keep_match params left i item (keep_match params left i item s))))

  each_match-positions :
      (twice : Bool) (key_of : Item → String) (key : String) (left : Item) (n : ℕ)
      (items : List Item)
      → ((j : ℕ) → get_elem? right (n + j) ≡ get_elem? items j)
      → (s : Joined)
      → Yields
          (each_match false (keep_match params left) right (positions twice key_of key n items) s)
          (s.result ++ with_key twice key_of key (merge_items params.resolve_clash left) items)
  unfolding each_match positions with_key
  each_match-positions twice key_of key left n [] at s = (s, refl, sym (append-nil s.result))
  each_match-positions twice key_of key left n (item ∷ items) at s =
      let here : get_elem? right n ≡ some item = ap (get_elem? right) (omega arith) ∙ at 0 in
      let later : (j : ℕ) → get_elem? right (suc n + j) ≡ get_elem? items j =
        λ j. ap (get_elem? right) (omega arith) ∙ at (suc j) in
      match_cases (key_of item == key) twice left item n (positions twice key_of key (suc n) items)
        (with_key twice key_of key (merge_items params.resolve_clash left) items) here
        (each_match-positions twice key_of key left (suc n) items later) s

  join_item-Yields :
      (n : ℕ) (left : Item) (matches : List ℕ) (s : Joined) (items : List Item)
      → Yields (each_match false (keep_match params left) right matches (mark_left n s)) items
      → params.first_match ≡ false
      → Yields (join_item params keep_matches right n left matches s) items
  unfolding join_item each_match
  join_item-Yields n left [] s items (s', eq, is) all = (s, refl, ap result_of eq ∙ is)
  join_item-Yields n left (i ∷ matches) s items (s', eq, is) all = (
    s',
    ap
          (λ b.
            and_then (each_match b (keep_match params left) right (i ∷ matches) (mark_left n s))
              (λ t. merged (if is_input1 params.output_data_from then append_item left t else t)))
          all
        ∙ (ap
              (λ m.
                and_then m (λ t.
                  merged (if is_input1 params.output_data_from then append_item left t else t)))
              eq
            ∙ ap (λ o. merged (if is_input1 o then append_item left s' else s')) from_both),
    is,
  )

  pub join_left-Yields :
      (twice : Bool) (left_key right_key : Item → String) (matches_of : Item → List ℕ)
      → ((left : Item) → matches_of left ≡ positions twice right_key (left_key left) 0 right)
      → params.first_match ≡ false
      → params.join_mode ≡ keep_matches
      → (n : ℕ) (lefts : List Item) (s : Joined)
      → Yields (join_left params matches_of right n lefts s) (
          s.result ++ pairs twice left_key right_key (merge_items params.resolve_clash) lefts right)
  unfolding join_left pairs
  join_left-Yields twice left_key right_key matches_of found all mode n [] s =
      (s, refl, sym (append-nil s.result))
  join_left-Yields twice left_key right_key matches_of found all mode n (left ∷ lefts) s =
      let mine : List Item =
        with_key twice right_key (left_key left) (merge_items params.resolve_clash left) right in
      let more : List Item =
        pairs twice left_key right_key (merge_items params.resolve_clash) lefts right in
      let (s', eq, is) =
        join_item-Yields n left (positions twice right_key (left_key left) 0 right) s
          (s.result ++ mine)
          (each_match-positions twice right_key (left_key left) left 0 right
            (λ j. ap (get_elem? right) (omega arith)) (mark_left n s))
          all in
      let (s'', eq', is') =
        join_left-Yields twice left_key right_key matches_of found all mode (suc n) lefts s' in
      (
        s'',
        ap
              (λ m.
                and_then (join_item params m right n left (matches_of left) s)
                  (λ t. join_left params matches_of right (suc n) lefts t))
              mode
            ∙ (ap
                  (λ l.
                    and_then (join_item params keep_matches right n left l s)
                      (λ t. join_left params matches_of right (suc n) lefts t))
                  (found left)
                ∙ (ap (λ m. and_then m (λ t. join_left params matches_of right (suc n) lefts t)) eq
                    ∙ eq')),
        is' ∙ (ap (λ l. l ++ more) is ∙ append_assoc s.result mine more),
      )
