-- ===== src/Cron/Fits.antt =====
-- The jobs of a scheduler, internal/cron/scheduler.go, kept under their identifiers.
use n8n_turbo.Prelude.{
  ℕ, ◌≡◌, inl, inr, sym, ◌∙◌, subst, arith, String, some, [], ◌∷◌, ◌==◌, string_eq, str_iff,
  Bool-cases,
}
use n8n_turbo.Prelude.Map.{Map, lookup, insert, delete}
use n8n_turbo.Cron.Valid.{IsValid}
use n8n_turbo.Cron.Job.{Job}

module _ (b : ℕ) where
  -- Under its own identifier, with a valid schedule.
  abbrev pub Fits : String → Job → Type 0
  Fits id j = (j.id ≡ id) × IsValid j.schedule b

  unfoldable pub AllFit : Map String Job → Type 0
  AllFit [] = Unit
  AllFit ((id, j) ∷ jobs) = Fits id j × AllFit jobs

  pub insert-AllFit :
      (id : String) (j : Job) (jobs : Map String Job)
      → Fits id j
      → AllFit jobs
      → AllFit (insert id j jobs)
  unfolding AllFit insert
  insert-AllFit id j [] fits all = (fits, tt)
  insert-AllFit id j ((k, i) ∷ jobs) fits all = elim (Bool-cases (k == id)) [
    | inl same ↦ rw same ((fits.0 ∙ sym ((str_iff k id).0 same), fits.1), all.1)
    | inr other ↦ rw other (all.0, insert-AllFit id j jobs fits all.1)
  ]

  pub delete-AllFit : (id : String) (jobs : Map String Job) → AllFit jobs → AllFit (delete id jobs)
  unfolding AllFit delete
  delete-AllFit id [] all = tt
  delete-AllFit id ((k, i) ∷ jobs) all = elim (Bool-cases (k == id)) [
    | inl same ↦ rw same (delete-AllFit id jobs all.1)
    | inr other ↦ rw other (all.0, delete-AllFit id jobs all.1)
  ]

  pub lookup-Fits :
      (id : String) (j : Job) (jobs : Map String Job)
      → AllFit jobs
      → lookup id jobs ≡ some j
      → Fits id j
  unfolding AllFit lookup
  lookup-Fits id j [] all there = ground (arith, there)
  lookup-Fits id j ((k, i) ∷ jobs) all there = elim (Bool-cases (k == id)) [
    | inl same ↦
        let found : i ≡ j = ground (arith, there, same) in
        subst (Fits id) found (subst (λ k. Fits k i) ((str_iff k id).0 same) all.0)
    | inr other ↦ lookup-Fits id j jobs all.1 (ground (arith, there, other))
  ]
