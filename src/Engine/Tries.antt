-- ===== src/Engine/Tries.antt =====
-- `executeNodeWithRetry` of internal/engine/retry.go: how its loop ends, and what it returns.
use n8n_turbo.Prelude.{
  ℕ, zero, suc, ◌+◌, ◌-◌, ◌≤◌, ◌<◌, ◌≡◌, ◌⊎◌, true, false, not, ◌||◌, refl, subst, arith, leb,
  Option, none, some, pos_part, Option-cases, Bool-cases, inl, inr,
}
use n8n_turbo.Dataplane.Types.{RetryConfig}
use n8n_turbo.Engine.Failure.{
  Failure, suspend, context_canceled, deadline_exceeded, plain, not_registered, exhausted,
  is_retriable_error,
}
use n8n_turbo.Engine.Retry.{Executed, failed, try_once, retry_loop, execute_node_with_retry}

-- The error says that a context has ended, itself or as the last error of a retry.
abbrev pub EndsContext : Failure → Type 0
EndsContext (suspend reason) = ⊥
EndsContext context_canceled = Unit
EndsContext deadline_exceeded = Unit
EndsContext (plain text) = ⊥
EndsContext (not_registered text) = ⊥
EndsContext (exhausted n e) = EndsContext e

is_retriable_error-cases :
    (e : Failure)
    → (EndsContext e × (is_retriable_error e ≡ false))
      ⊎ ((¬ EndsContext e) × (is_retriable_error e ≡ true))
unfolding is_retriable_error
is_retriable_error-cases (suspend reason) = inr (λ x. x, refl)
is_retriable_error-cases context_canceled = inl (tt, refl)
is_retriable_error-cases deadline_exceeded = inl (tt, refl)
is_retriable_error-cases (plain text) = inr (λ x. x, refl)
is_retriable_error-cases (not_registered text) = inr (λ x. x, refl)
is_retriable_error-cases (exhausted n e) = is_retriable_error-cases e

module _ (attempt : ℕ → Executed) (before during : ℕ → Option Failure) where
  -- The try of run index `j` failed, not by the end of a context, and no context had ended before it
  -- or ended in the wait after it: another try follows.
  abbrev pub Retried : ℕ → Type 0
  Retried j =
      (before (suc j) ≡ none)
      × ((e : Failure) × ((attempt j).err ≡ some e) × (¬ EndsContext e))
      × (during (suc j) ≡ none)

  -- The round of run index `j` is the last, and answers `r`: the context has ended ahead of it; its
  -- try has no error; its error ends a context or it is the last try allowed; or the context ends in
  -- the wait for another try.
  abbrev pub Ended : ℕ → ℕ → Executed → Type 0
  Ended max_tries j r =
      ((c : Failure) × (before (suc j) ≡ some c) × (r ≡ failed c))
      ⊎ ((before (suc j) ≡ none) × ((attempt j).err ≡ none) × (r ≡ attempt j))
      ⊎ ((e : Failure) × (before (suc j) ≡ none)
          × ((attempt j).err ≡ some e)
          × (EndsContext e ⊎ (suc j ≡ max_tries))
          × (r ≡ failed (exhausted (suc j) e)))
      ⊎ ((e : Failure) × (c : Failure) × (before (suc j) ≡ none)
          × ((attempt j).err ≡ some e)
          × (¬ EndsContext e)
          × (suc j < max_tries)
          × (during (suc j) ≡ some c)
          × (r ≡ failed c))

  -- A round is the last, or the next one follows.
  abbrev Round : ℕ → ℕ → Type 0
  Round max_tries j =
      ((r : Executed) × (try_once attempt before during max_tries (suc j) ≡ some r)
        × Ended max_tries j r)
      ⊎ ((try_once attempt before during max_tries (suc j) ≡ none)
          × Retried j
          × (suc j < max_tries))

  failed-Round :
      (max_tries j : ℕ) (e : Failure)
      → j < max_tries
      → before (suc j) ≡ none
      → (attempt j).err ≡ some e
      → Round max_tries j
  unfolding try_once
  failed-Round max_tries j e less b bad = elim (is_retriable_error-cases e) [
    | inl (ends, never) ↦ inl (
      failed (exhausted (suc j) e),
      ground (arith, b, bad, never),
      inr (inr (inl (e, b, bad, inl ends, refl))),
    )
    | inr (goes_on, again) ↦ elim (Bool-cases (leb max_tries (suc j))) [
      | inl last ↦ inl (
        failed (exhausted (suc j) e),
        ground (arith, b, bad, again, last),
        inr (inr (inl (e, b, bad, inr (ground (arith, last, less)), refl))),
      )
      | inr more ↦ elim (Option-cases (during (suc j))) [
        | inr (c, d) ↦ inl (
          failed c,
          ground (arith, b, bad, again, more, d),
          inr (inr (inr (e, c, b, bad, goes_on, ground (arith, more), d, refl))),
        )
        | inl d ↦ inr (
          ground (arith, b, bad, again, more, d),
          (b, (e, bad, goes_on), d),
          ground (arith, more),
        )
      ]
    ]
  ]

  round_lem : (max_tries j : ℕ) → j < max_tries → Round max_tries j
  unfolding try_once
  round_lem max_tries j less = elim (Option-cases (before (suc j))) [
    | inr (c, b) ↦ inl (failed c, ground (arith, b), inl (c, b, refl))
    | inl b ↦ elim (Option-cases (attempt j).err) [
      | inl ok ↦ inl (attempt j, ground (arith, b, ok), inr (inl (b, ok, refl)))
      | inr (e, bad) ↦ failed-Round max_tries j e less b bad
    ]
  ]

  -- From the round of run index `j` on, the loop goes on to its last round.
  abbrev Last : ℕ → ℕ → Executed → Type 0
  Last max_tries j r =
      (k : ℕ) × (j ≤ k)
      × (k < max_tries)
      × ((i : ℕ) → j ≤ i → i < k → Retried i)
      × Ended max_tries k r

  now-Last :
      (max_tries j : ℕ) (r : Executed) → j < max_tries → Ended max_tries j r → Last max_tries j r
  now-Last max_tries j r less end =
      (j, omega arith, less, λ i low high. absurd (omega (arith, low, high)), end)

  later-Last :
      (max_tries j : ℕ) (r : Executed) → Retried j → Last max_tries (suc j) r → Last max_tries j r
  later-Last max_tries j r again (k, low, high, between, end) = (
    k,
    omega (arith, low),
    high,
    λ i a b. elim (Bool-cases (leb (suc j) i)) [
      | inl past ↦ between i (ground (arith, past)) b
      | inr here ↦ subst Retried {x = j} {y = i} (ground (arith, here, a)) again
    ],
    end,
  )

  retry_loop-Last :
      (rounds max_tries j : ℕ)
      → suc j + rounds ≡ max_tries
      → (r : Executed) × (retry_loop attempt before during (suc rounds) max_tries (suc j) ≡ some r)
        × Last max_tries j r
  unfolding retry_loop
  retry_loop-Last zero max_tries j e = elim (round_lem max_tries j (omega (arith, e))) [
    | inl (r, t, end) ↦ (r, ground (arith, t), now-Last max_tries j r (omega (arith, e)) end)
    | inr (t, again, less) ↦ absurd (omega (arith, less, e))
  ]
  retry_loop-Last (suc rounds) max_tries j e = elim (round_lem max_tries j (omega (arith, e))) [
    | inl (r, t, end) ↦ (r, ground (arith, t), now-Last max_tries j r (omega (arith, e)) end)
    | inr (t, again, less) ↦
        let (r, f, last) = retry_loop-Last rounds max_tries (suc j) (omega (arith, e)) in
        (r, ground (arith, t, f), later-Last max_tries j r again last)
  ]

-- However the contexts end and whatever the tries answer, the loop returns. Without retries, or with
-- at most one try allowed, it answers the first try. Otherwise there is one round, among the allowed
-- tries, that is the last, and every try before it is retried: it failed, not by the end of a
-- context, and no context had ended before it or ended in the wait after it. The answer of the last
-- round is the context's error if that has ended ahead of it; the try's own answer if it has no
-- error; its error as that of the retries if it ends a context or the try is the last allowed; or
-- else the error of the context that ends in the wait.
pub execute_node_with_retry-first :
    (attempt : ℕ → Executed) (before during : ℕ → Option Failure) (cfg : RetryConfig)
    → (r : Executed) × (execute_node_with_retry attempt before during cfg ≡ some r)
      × ((((cfg.enabled ≡ false) ⊎ (pos_part cfg.max_tries ≤ 1)) × (r ≡ attempt 0))
          ⊎ ((cfg.enabled ≡ true)
              × (1 < pos_part cfg.max_tries)
              × ((j : ℕ) × (j < pos_part cfg.max_tries)
                  × ((i : ℕ) → i < j → Retried attempt before during i)
                  × Ended attempt before during (pos_part cfg.max_tries) j r)))
unfolding execute_node_with_retry
execute_node_with_retry-first attempt before during cfg =
    elim (Bool-cases (not cfg.enabled || leb (pos_part cfg.max_tries) 1)) [
      | inl single ↦ (
        attempt 0,
        ground (arith, single),
        inl (
          elim (Bool-cases cfg.enabled) [
            | inl on ↦ inr (ground (arith, single, on))
            | inr off ↦ inl off
          ],
          refl,
        ),
      )
      | inr several ↦
          let tries = pos_part cfg.max_tries in
          let many : 1 < tries = ground (arith, several) in
          let (r, e, (j, low, high, between, end)) =
            retry_loop-Last attempt before during (tries - 1) tries 0 (omega (arith, many)) in
          let same : suc (tries - 1) ≡ tries = omega (arith, many) in
          (
            r,
            ground (arith, several, e, same),
            inr (
              ground (arith, several),
              many,
              (j, high, λ i less. between i (omega arith) less, end),
            ),
          )
    ]
