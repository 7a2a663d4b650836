-- ===== src/Executions/Invariant.antt =====
-- The registry of running executions (internal/engine/active_executions.go) after any calls.
use n8n_turbo.Prelude.{
  add_one, sub_one, ◌↔◌, ◌≡◌, refl, sym, ◌∙◌, ap, arith, true, String, none, some, List, [], ◌∷◌,
  length, pos, string_eq, str_iff, Option-cases, inl, inr,
}
use n8n_turbo.Prelude.Map
use n8n_turbo.Prelude.Map.{Map, lookup, insert, delete, lookup-insert, lookup-delete}
use n8n_turbo.Concurrency.Service.{Config, Service}
use n8n_turbo.Concurrency.Calls.{Release}
use n8n_turbo.Executions.Registry.{
  ActiveExecution, ActiveExecutions, new_active_executions, register, remove_execution, stop,
}
use n8n_turbo.Executions.Consistency.{
  Unique, insert-fresh, insert-present, delete-present, delete-Unique,
}

-- The counter is the number of executions, no identifier occurs twice, and just the executions that
-- are registered have a release function.
pub record IsConsistent (a : ActiveExecutions) : Type 0 where
  pub counted : a.counter ≡ pos (length a.executions)
  pub unique : Unique a.executions
  pub permits : (k : String) → (lookup k a.releases ≡ none) ↔ (lookup k a.executions ≡ none)

-- The concurrency service may do anything in between.
pub data Change : Type 0 where
  registering : ActiveExecution → Release → Change
  removing stopping : String → Change
  elsewhere : Service → Change

unfoldable pub apply : Change → ActiveExecutions → ActiveExecutions
apply (registering e r) a = (register e r a).0
apply (removing id) a = remove_execution id a
apply (stopping id) a = (stop id a).0
apply (elsewhere svc) a = record a { concurrency = svc }

unfoldable pub apply_all : List Change → ActiveExecutions → ActiveExecutions
apply_all [] a = a
apply_all (c ∷ cs) a = apply_all cs (apply c a)

registered :
    (e : ActiveExecution) (r : Release) (a : ActiveExecutions)
    → lookup e.id a.executions ≡ none
    → IsConsistent a
    → IsConsistent (record a {
      executions = insert e.id e a.executions;
      releases = insert e.id r a.releases;
      counter = add_one a.counter;
    })
registered e r a new h =
    let f = insert-fresh e.id e a.executions new h.unique in
    record {
      counted = ground (arith, h.counted, f.0);
      unique = f.1;
      permits = λ k. ground (
        arith,
        lookup-insert e.id k e a.executions,
        lookup-insert e.id k r a.releases,
        h.permits k,
      );
    }

elsewhere-IsConsistent :
    (a : ActiveExecutions) (svc : Service)
    → IsConsistent a
    → IsConsistent (record a { concurrency = svc })
elsewhere-IsConsistent a svc h = record {
  counted = h.counted;
  unique = h.unique;
  permits = h.permits;
}

register-IsConsistent :
    (e : ActiveExecution) (r : Release) (a : ActiveExecutions)
    → IsConsistent a
    → IsConsistent (register e r a).0
unfolding register
register-IsConsistent e r a h = elim (Option-cases (lookup e.id a.executions)) [
  | inl new ↦ rw (new, register) (registered e r a new h)
  | inr (other, old) ↦ rw (old, register) (elsewhere-IsConsistent a _ h)
]

removed :
    (id : String) (x : ActiveExecution) (svc : Service) (a : ActiveExecutions)
    → lookup id a.executions ≡ some x
    → IsConsistent a
    → IsConsistent (record a {
      executions = delete id a.executions;
      releases = delete id a.releases;
      counter = sub_one a.counter;
      concurrency = svc;
    })
removed id x svc a there h = record {
  counted = ground (arith, h.counted, delete-present id a.executions x there h.unique);
  unique = delete-Unique id a.executions h.unique;
  permits = λ k.
      ground (arith, lookup-delete id k a.executions, lookup-delete id k a.releases, h.permits k);
}

remove-IsConsistent :
    (id : String) (a : ActiveExecutions) → IsConsistent a → IsConsistent (remove_execution id a)
unfolding remove_execution
remove-IsConsistent id a h = elim (Option-cases (lookup id a.executions)) [
  | inl gone ↦ rw (gone, remove_execution) h
  | inr (x, there) ↦ rw (there, remove_execution) (removed id x _ a there h)
]

stop-IsConsistent :
    (id : String) (a : ActiveExecutions) → IsConsistent a → IsConsistent (stop id a).0
unfolding stop
stop-IsConsistent id a h = elim (Option-cases (lookup id a.executions)) [
  | inl gone ↦ rw (gone, stop) h
  | inr (x, there) ↦
      let x' = record x { canceled = true } in
      let f = insert-present id x' x a.executions there h.unique in
      rw (there, stop)
        (record {
          counted = h.counted ∙ ap pos (sym f.0);
          unique = f.1;
          permits = λ k. ground (
            arith,
            lookup-insert id k x' a.executions,
            str_iff id k,
            there,
            h.permits k,
            h.permits id,
          );
        })
]

apply_all-IsConsistent :
    (cs : List Change) (a : ActiveExecutions) → IsConsistent a → IsConsistent (apply_all cs a)
unfolding apply_all apply
apply_all-IsConsistent [] a h = h
apply_all-IsConsistent (registering e r ∷ cs) a h =
    apply_all-IsConsistent cs _ (register-IsConsistent e r a h)
apply_all-IsConsistent (removing id ∷ cs) a h =
    apply_all-IsConsistent cs _ (remove-IsConsistent id a h)
apply_all-IsConsistent (stopping id ∷ cs) a h =
    apply_all-IsConsistent cs _ (stop-IsConsistent id a h)
apply_all-IsConsistent (elsewhere svc ∷ cs) a h =
    apply_all-IsConsistent cs _ (elsewhere-IsConsistent a svc h)

-- After any registrations, removals and stops of a new registry, whatever the concurrency control
-- service does in between: the counter is the number of executions, no identifier occurs twice, and
-- just the executions that are registered have a release function.
pub always-IsConsistent :
    (config : Config) (cs : List Change)
    → IsConsistent (apply_all cs (new_active_executions config))
unfolding new_active_executions Map.lookup
always-IsConsistent config cs =
    apply_all-IsConsistent cs _
      (record { counted = refl; unique = tt; permits = λ k. (λ e. refl, λ e. refl) })
