-- ===== src/Flatted/Rebuild.antt =====
-- `reconstruct` of internal/flatted/flatted.go rebuilds the values that the entries of a table stand for.
use n8n_turbo.Prelude.{
  ℕ, suc, ◌^◌, ◌≤◌, ◌<◌, some, ◌≡◌, ◌≢◌, ◌⊎◌, refl, sym, subst, ap, ◌∙◌, arith, inl, inr, pos,
}
use n8n_turbo.Cron.Text.{atoi}
use n8n_turbo.Flatted.Decimal.{itoa, atoi-itoa}
use n8n_turbo.Flatted.Value.{
  Value, null, bool, number, str, arr, obj, cell, Items, nil, cons, Fields, end, field,
}
use n8n_turbo.Flatted.Table.{Values, Ref, Refs, RefFields, Encodes}
use n8n_turbo.Flatted.Parse.{
  done, and_then, Cache, remember, Maker, resolve_string, resolve, resolve_items, resolve_fields,
  build,
}
use n8n_turbo.Flatted.Progress.{
  Right, Better-trans, Better-Right, remember-Better, cell-Right, complete-Better, Rebuilt,
}

-- `make` rebuilds the values at the later indices, and the empty slice.
module _ (val : Values) (make : Maker) (n k : ℕ) (fits : n ≤ 2 ^ 63)
    (make-Rebuilt : (i : ℕ) (cache : Cache)
      → i < n
      → Right val (suc k) cache
      → (k < i) ⊎ (val i ≡ arr nil)
      → Rebuilt val cache (make i cache) (val i)) where
  resolve-Rebuilt :
      (r x : Value) (cache : Cache)
      → Ref val n k r x
      → Right val (suc k) cache
      → Rebuilt val cache (resolve make n r cache) x
  unfolding resolve resolve_string
  resolve-Rebuilt r x cache (inl (nothing, eq)) h = (
    cache,
    ap (λ t. resolve make n t cache) eq ∙ ap (λ t. done (t, cache)) (sym nothing),
    λ j w found. inr found,
  )
  resolve-Rebuilt r x cache (inr (i, small, eq, later, is)) h =
      let (cache', made, better) =
        make-Rebuilt i cache small h (subst (λ y. (k < i) ⊎ (y ≡ arr nil)) (sym is) later) in
      let read : atoi (itoa i) ≡ some (pos i) = atoi-itoa i (omega (arith, small, fits)) in
      let go : resolve make n (str (itoa i)) cache ≡ make i cache =
        ap (resolve_string make n (itoa i) cache) read ∙ ground (arith, small) in
      (
        cache',
        ap (λ t. resolve make n t cache) eq ∙ (go ∙ (made ∙ ap (λ t. done (t, cache')) is)),
        better,
      )

  resolve_items-Rebuilt :
      (rs xs : Items) (cache : Cache)
      → Refs val n k rs xs
      → Right val (suc k) cache
      → Rebuilt val cache (resolve_items make n rs cache) xs
  unfolding resolve
  resolve_items-Rebuilt nil nil cache refs h = (cache, refl, λ j w found. inr found)
  resolve_items-Rebuilt nil (cons x xs) cache refs h = absurd refs
  resolve_items-Rebuilt (cons r rs) nil cache refs h = absurd refs
  resolve_items-Rebuilt (cons r rs) (cons x xs) cache (ref, refs) h =
      let (cache', made, better) = resolve-Rebuilt r x cache ref h in
      let (cache'', made', better') =
        resolve_items-Rebuilt rs xs cache' refs (Better-Right val (suc k) cache cache' better h) in
      (
        cache'',
        ap
              (λ m.
                and_then m
                  (λ a. and_then (resolve_items make n rs a.1) (λ b. done (cons a.0 b.0, b.1))))
              made
            ∙ ap (λ m. and_then m (λ b. done (cons x b.0, b.1))) made',
        Better-trans val cache cache' cache'' better better',
      )

  resolve_fields-Rebuilt :
      (rs fs : Fields) (cache : Cache)
      → RefFields val n k rs fs
      → Right val (suc k) cache
      → Rebuilt val cache (resolve_fields make n rs cache) fs
  unfolding resolve
  resolve_fields-Rebuilt end end cache refs h = (cache, refl, λ j w found. inr found)
  resolve_fields-Rebuilt end (field key x fs) cache refs h = absurd refs
  resolve_fields-Rebuilt (field key r rs) end cache refs h = absurd refs
  resolve_fields-Rebuilt (field key r rs) (field key' x fs) cache (same, ref, refs) h =
      let (cache', made, better) = resolve-Rebuilt r x cache ref h in
      let (cache'', made', better') =
        resolve_fields-Rebuilt rs fs cache' refs (Better-Right val (suc k) cache cache' better h) in
      (
        cache'',
        ap
              (λ m.
                and_then m (λ a.
                  and_then (resolve_fields make n rs a.1) (λ b. done (field key a.0 b.0, b.1))))
              made
            ∙ (ap (λ m. and_then m (λ b. done (field key x b.0, b.1))) made'
                ∙ ap (λ s. done (field s x fs, cache'')) same),
        Better-trans val cache cache' cache'' better better',
      )

  items_build :
      (x : Value) (xs : Items) (t : Value) (cache : Cache)
      → val k ≡ arr (cons x xs)
      → Encodes val n k t (arr (cons x xs))
      → Right val k cache
      → Rebuilt val cache (build make n k t cache) (arr (cons x xs))
  unfolding build
  items_build x xs t cache is (rs, eq, refs) h =
      let full : val k ≢ arr nil = λ e. ground (arith, e, is) in
      let (after, made, better) =
        resolve_items-Rebuilt rs (cons x xs) (remember k (cell k) cache) refs
          (cell-Right val k k cache (omega arith) full h) in
      (
        remember k (arr (cons x xs)) after,
        ap (λ e. build make n k e cache) eq
            ∙ ap (λ m. and_then m (λ r. done (arr r.0, remember k (arr r.0) r.1))) made,
        complete-Better val k (arr (cons x xs)) cache after is better,
      )

  fields_build :
      (fs : Fields) (t : Value) (cache : Cache)
      → val k ≡ obj fs
      → Encodes val n k t (obj fs)
      → Right val k cache
      → Rebuilt val cache (build make n k t cache) (obj fs)
  unfolding build
  fields_build fs t cache is (rs, eq, refs) h =
      let full : val k ≢ arr nil = λ e. ground (arith, e, is) in
      let (after, made, better) =
        resolve_fields-Rebuilt rs fs (remember k (cell k) cache) refs
          (cell-Right val k k cache (omega arith) full h) in
      (
        remember k (obj fs) after,
        ap (λ e. build make n k e cache) eq
            ∙ ap (λ m. and_then m (λ r. done (obj r.0, remember k (obj r.0) r.1))) made,
        complete-Better val k (obj fs) cache after is better,
      )

-- The empty slice needs no other value.
pub empty_build :
    (val : Values) (make : Maker) (n k : ℕ) (t : Value) (cache : Cache)
    → val k ≡ arr nil
    → Encodes val n k t (arr nil)
    → Rebuilt val cache (build make n k t cache) (arr nil)
unfolding build resolve
empty_build val make n k t cache is (nil, eq, refs) = (
  remember k (arr nil) (remember k (cell k) cache),
  ap (λ e. build make n k e cache) eq,
  complete-Better val k (arr nil) cache (remember k (cell k) cache) is (λ j w found. inr found),
)
empty_build val make n k t cache is (cons r rs, eq, refs) = absurd refs

module _ (val : Values) (make : Maker) (n k : ℕ) (fits : n ≤ 2 ^ 63)
    (make-Rebuilt : (i : ℕ) (cache : Cache)
      → i < n
      → Right val (suc k) cache
      → (k < i) ⊎ (val i ≡ arr nil)
      → Rebuilt val cache (make i cache) (val i)) where
  pub build-Rebuilt :
      (v t : Value) (cache : Cache)
      → val k ≡ v
      → Encodes val n k t v
      → Right val k cache
      → Rebuilt val cache (build make n k t cache) v
  unfolding build
  build-Rebuilt (arr nil) t cache is encodes h = empty_build val make n k t cache is encodes
  build-Rebuilt (arr (cons x xs)) t cache is encodes h =
      items_build val make n k fits make-Rebuilt x xs t cache is encodes h
  build-Rebuilt (obj fs) t cache is encodes h =
      fields_build val make n k fits make-Rebuilt fs t cache is encodes h
  build-Rebuilt null t cache is eq h = (
    remember k null cache,
    ap (λ e. build make n k e cache) eq,
    remember-Better val k null cache is,
  )
  build-Rebuilt (bool b) t cache is eq h = (
    remember k (bool b) cache,
    ap (λ e. build make n k e cache) eq,
    remember-Better val k (bool b) cache is,
  )
  build-Rebuilt (number s) t cache is eq h = (
    remember k (number s) cache,
    ap (λ e. build make n k e cache) eq,
    remember-Better val k (number s) cache is,
  )
  build-Rebuilt (str s) t cache is eq h = (
    remember k (str s) cache,
    ap (λ e. build make n k e cache) eq,
    remember-Better val k (str s) cache is,
  )
  build-Rebuilt (cell i) t cache is eq h = (
    remember k (cell i) cache,
    ap (λ e. build make n k e cache) eq,
    remember-Better val k (cell i) cache is,
  )
