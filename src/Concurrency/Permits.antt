-- ===== src/Concurrency/Permits.antt =====
-- The permits of `ConcurrencyControlService` of internal/engine/concurrency.go: its semaphores count
-- the executions that hold one. `held` lists their workflows, one entry for each permit.
use n8n_turbo.Prelude.{
  ℕ, suc, ◌≤◌, ◌≡◌, ◌⊎◌, refl, sym, true, false, String, Option, none, some, List, [], ◌∷◌, ◌++◌,
  arith, length, length-append, count_if, Bool-cases, inl, inr, ◌==◌, string_eq, str_iff, beq_refl,
  if◌then◌else◌, ℤ, pos_part, positive, subst,
}
use n8n_turbo.Prelude.Map.{Map, lookup, lookup-insert}
use n8n_turbo.Concurrency.Semaphore
use n8n_turbo.Concurrency.Semaphore.{Semaphore}
use n8n_turbo.Concurrency.Service.{
  Config, Service, workflow_limit, acquire_global, release_global, acquire_workflow, try_acquire,
  take_token, workflow_semaphore,
}
use n8n_turbo.Concurrency.Calls.{release_workflow, give_back}

-- How many of `held` are executions of a workflow.
abbrev pub of_workflow : String → List String → ℕ
of_workflow w held = count_if (λ v. w == v) held

-- A semaphore of the configured size, with `n` tokens out.
abbrev pub Holds : ℤ → Semaphore → ℕ → Type 0
Holds limit s n =
    (positive limit ≡ true)
    × (s.max_size ≡ pos_part limit)
    × (s.ch ≡ n)
    × (s.current ≡ n)
    × (n ≤ pos_part limit)

abbrev pub GlobalHolds : ℤ → Option Semaphore → ℕ → Type 0
GlobalHolds limit none n = positive limit ≡ false
GlobalHolds limit (some g) n = Holds limit g n

-- A workflow with no semaphore has no limit, or no permit out.
abbrev pub WorkflowHolds : String → ℤ → Option Semaphore → ℕ → Type 0
WorkflowHolds w limit none n = ((w == "") ≡ true) ⊎ (positive limit ≡ false) ⊎ (n ≡ 0)
WorkflowHolds w limit (some s) n = ((w == "") ≡ false) × Holds limit s n

pub record IsPermitted (svc : Service) (held : List String) : Type 0 where
  pub global : GlobalHolds svc.config.max_global_concurrent svc.global_sem (length held)
  pub workflow :
      (w : String)
      → WorkflowHolds w
          (workflow_limit w svc.config)
          (lookup w svc.workflow_sems)
          (of_workflow w held)

-- The order of the permits does not matter.
pub IsPermitted-same :
    (svc : Service) (held held' : List String)
    → length held ≡ length held'
    → ((v : String) → of_workflow v held ≡ of_workflow v held')
    → IsPermitted svc held
    → IsPermitted svc held'
IsPermitted-same svc held held' e counts h = record {
  global = subst (GlobalHolds svc.config.max_global_concurrent svc.global_sem) e h.global;
  workflow = λ v.
      subst (WorkflowHolds v (workflow_limit v svc.config) (lookup v svc.workflow_sems)) (counts v)
        (h.workflow v);
}

acquire_global_ok :
    (limit : ℤ) (g : Option Semaphore) (n : ℕ)
    → GlobalHolds limit g n
    → (acquire_global g).1 ≡ true
    → GlobalHolds limit (acquire_global g).0 (suc n)
unfolding acquire_global
acquire_global_ok limit none n h k = h
acquire_global_ok limit (some g) n h k = ground arith

release_global_ok :
    (limit : ℤ) (g : Option Semaphore) (n : ℕ)
    → GlobalHolds limit g (suc n)
    → GlobalHolds limit (release_global g) n
unfolding release_global
release_global_ok limit none n h = h
release_global_ok limit (some g) n h = ground arith

-- Taking a token of one workflow leaves the semaphores of the others as they are.
lookup-workflow_semaphore_ne :
    (w v : String) (cfg : Config) (sems : Map String Semaphore)
    → (w == v) ≡ false
    → lookup v (workflow_semaphore w cfg sems).0 ≡ lookup v sems
unfolding workflow_semaphore
lookup-workflow_semaphore_ne w v cfg sems ne =
    ground (arith, lookup-insert w v (Semaphore.new w (workflow_limit w cfg)) sems)

lookup-take_token_ne :
    (w v : String) (r : Map String Semaphore × Option Semaphore)
    → (w == v) ≡ false
    → lookup v (take_token w r).0 ≡ lookup v r.0
unfolding take_token
lookup-take_token_ne w v (sems, none) ne = refl
lookup-take_token_ne w v (sems, some s) ne =
    ground (arith, lookup-insert w v (Semaphore.try_acquire s).0 sems)

-- The semaphore that `workflow_semaphore` returns is the one in the map; where there is none, one
-- more permit needs none.
abbrev TokenReady : String → ℤ → ℕ → Map String Semaphore × Option Semaphore → Type 0
TokenReady w limit n (sems, none) = WorkflowHolds w limit (lookup w sems) (suc n)
TokenReady w limit n (sems, some s) = (lookup w sems ≡ some s) × WorkflowHolds w limit (some s) n

workflow_semaphore-TokenReady :
    (w : String) (cfg : Config) (sems : Map String Semaphore) (n : ℕ)
    → WorkflowHolds w (workflow_limit w cfg) (lookup w sems) n
    → TokenReady w (workflow_limit w cfg) n (workflow_semaphore w cfg sems)
unfolding workflow_semaphore Semaphore.new
workflow_semaphore-TokenReady w cfg sems n h =
    let made = Semaphore.new w (workflow_limit w cfg) in
    ground (arith, lookup-insert w w made sems, beq_refl w)

take_token_self :
    (w : String) (limit : ℤ) (n : ℕ) (r : Map String Semaphore × Option Semaphore)
    → TokenReady w limit n r
    → (take_token w r).1 ≡ true
    → WorkflowHolds w limit (lookup w (take_token w r).0) (suc n)
unfolding take_token Semaphore.try_acquire
take_token_self w limit n (sems, none) h k = h
take_token_self w limit n (sems, some s) h k =
    ground (arith, lookup-insert w w (Semaphore.try_acquire s).0 sems, beq_refl w)

acquire_workflow_ok :
    (w v : String) (cfg : Config) (sems : Map String Semaphore) (held : List String)
    → ((u : String) → WorkflowHolds u (workflow_limit u cfg) (lookup u sems) (of_workflow u held))
    → (acquire_workflow w cfg sems).1 ≡ true
    → WorkflowHolds v
        (workflow_limit v cfg)
        (lookup v (acquire_workflow w cfg sems).0)
        (of_workflow v (w ∷ held))
unfolding acquire_workflow
acquire_workflow_ok w v cfg sems held h k = elim (Bool-cases (v == w)) [
  | inl same ↦
      let e : v ≡ w = (str_iff v w).0 same in
      rw same (
        subst
          (λ u.
            WorkflowHolds u (workflow_limit u cfg)
              (lookup u (take_token w (workflow_semaphore w cfg sems)).0)
              (suc (of_workflow u held)))
          (sym e)
          (take_token_self w (workflow_limit w cfg) (of_workflow w held)
            (workflow_semaphore w cfg sems)
            (workflow_semaphore-TokenReady w cfg sems (of_workflow w held) (h w)) k))
  | inr other ↦
      let ne : (w == v) ≡ false = ground (arith, str_iff v w, str_iff w v) in
      rw other (
        rw (lookup-take_token_ne w v (workflow_semaphore w cfg sems) ne)
          (rw (lookup-workflow_semaphore_ne w v cfg sems ne) (h v)))
]

-- An admission takes a permit for its workflow.
pub try_acquire-IsPermitted :
    (w : String) (svc : Service) (held : List String)
    → IsPermitted svc held
    → (try_acquire w svc).1 ≡ true
    → IsPermitted (try_acquire w svc).0 (w ∷ held)
unfolding try_acquire
try_acquire-IsPermitted w svc held h k = record {
  global = ground (
    arith,
    acquire_global_ok svc.config.max_global_concurrent svc.global_sem (length held) h.global,
  );
  workflow = λ v. ground (
    arith,
    λ (u : (acquire_workflow w svc.config svc.workflow_sems).1 ≡ true).
        acquire_workflow_ok w v svc.config svc.workflow_sems held h.workflow u,
  );
}

lookup-release_workflow :
    (w v : String) (sems : Map String Semaphore)
    → lookup v (release_workflow w sems) ≡ (
        if w == v
        then elim (lookup v sems) [ none ↦ none | some s ↦ some (Semaphore.release s).0 ]
        else lookup v sems)
unfolding release_workflow lookup
lookup-release_workflow w v [] = ground arith
lookup-release_workflow w v ((j, s) ∷ sems) =
    ground (arith, lookup-release_workflow w v sems, str_iff w v, str_iff j w, str_iff j v)

pub of_workflow-middle :
    (v w : String) (before after : List String)
    → of_workflow v (before ++ w ∷ after)
      ≡ (if v == w then suc (of_workflow v (before ++ after)) else of_workflow v (before ++ after))
of_workflow-middle v w [] after = refl
of_workflow-middle v w (b ∷ before) after = ground (arith, of_workflow-middle v w before after)

pub length-middle :
    (w : String) (before after : List String)
    → length (before ++ w ∷ after) ≡ suc (length (before ++ after))
length-middle w before after =
    omega (arith, length-append before (w ∷ after), length-append before after)

release_workflow_ok :
    (w v : String) (limit : ℤ) (sems : Map String Semaphore) (n : ℕ)
    → WorkflowHolds v limit (lookup v sems) (if v == w then suc n else n)
    → WorkflowHolds v limit (lookup v (if w == "" then sems else release_workflow w sems)) n
unfolding Semaphore.release
release_workflow_ok w v limit sems n h =
    ground (
      arith,
      lookup-release_workflow w v sems,
      str_iff w v,
      str_iff v w,
      str_iff w "",
      str_iff v "",
    )

-- A release gives one permit of its workflow back.
pub give_back-IsPermitted :
    (w : String) (before after : List String) (svc : Service)
    → IsPermitted svc (before ++ w ∷ after)
    → IsPermitted (give_back w svc) (before ++ after)
unfolding give_back
give_back-IsPermitted w before after svc h = record {
  global =
      release_global_ok svc.config.max_global_concurrent svc.global_sem (length (before ++ after))
        (rw (length-middle w before after) at h.global);
  workflow = λ v.
      release_workflow_ok w v (workflow_limit v svc.config) svc.workflow_sems
        (of_workflow v (before ++ after))
        (rw (of_workflow-middle v w before after) at (h.workflow v));
}
