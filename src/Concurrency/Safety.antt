-- ===== src/Concurrency/Safety.antt =====
-- What holds of `ConcurrencyControlService` (internal/engine/concurrency.go) whatever its clients do
-- while the configuration stays.
use mathlib.Core.List.{append_assoc}
use n8n_turbo.Prelude.{
  ℕ, ◌≡◌, refl, ap, sym, ◌∙◌, String, List, ◌∷◌, ◌++◌, arith, length, inl, inr, Bool-cases, subst,
  string_eq,
}
use n8n_turbo.Concurrency.Queue.{QueuedExecution}
use n8n_turbo.Concurrency.Service.{
  Service, WaitOptions, try_acquire, record_acquire, grant, dispatch,
}
use n8n_turbo.Concurrency.Admission.{try_acquire_refused}
use n8n_turbo.Concurrency.Dispatch.{try_acquire-SameFrame, dispatch_induction}
use n8n_turbo.Concurrency.Permits.{IsPermitted, length-middle, give_back-IsPermitted}
use n8n_turbo.Concurrency.Invariant.{
  IsSound, workflows, held, dispatch-IsSound, record_acquire-IsSound,
}
use n8n_turbo.Concurrency.Calls.{
  Begin, WaitResult, wait_with_options, enqueue_waiter, Wake, ready, done, after_select, leave,
  release, give_back, is_empty,
}
use n8n_turbo.Concurrency.System.{
  System, keep_begin, keep_wake, Step, begin, wake, finish, Reach, here, next,
  enqueue_waiter-IsSound,
}
use n8n_turbo.Concurrency.Wakeup.{after_select-IsSound}

-- A caller that was put in the queue, or sent away, holds nothing.
keep_begin-enqueue_waiter :
    (opts : WaitOptions) (now : ℕ) (svc : Service) (holders : List String)
    → keep_begin opts holders (enqueue_waiter opts now svc)
      ≡ record { svc = (enqueue_waiter opts now svc).0; holders = holders }
unfolding enqueue_waiter
keep_begin-enqueue_waiter opts now svc holders = ground arith

begin-IsSound :
    (opts : WaitOptions) (now : ℕ) (svc : Service) (holders : List String)
    → IsSound svc holders
    → let s = keep_begin opts holders (wait_with_options opts now svc) in IsSound s.svc s.holders
unfolding wait_with_options
begin-IsSound opts now svc holders h = elim (Bool-cases (is_empty svc.queue.items)) [
  | inl empty ↦ rw empty (elim (Bool-cases (try_acquire opts.workflow_id svc).1) [
    | inl fits ↦ rw fits (record_acquire-IsSound opts.workflow_id svc holders h fits)
    | inr full ↦ rw full (
        rw (try_acquire_refused opts.workflow_id svc full) (
          rw (keep_begin-enqueue_waiter opts now svc holders)
            (enqueue_waiter-IsSound opts now svc holders h)))
  ])
  | inr waiting ↦ rw waiting (
      rw (keep_begin-enqueue_waiter opts now svc holders)
        (enqueue_waiter-IsSound opts now svc holders h))
]

held-middle :
    (w : String) (svc : Service) (before after : List String)
    → held svc (before ++ w ∷ after) ≡ (workflows svc.granted ++ before) ++ w ∷ after
held-middle w svc before after = sym (append_assoc (workflows svc.granted) before (w ∷ after))

give_back-IsSound :
    (w : String) (before after : List String) (svc : Service)
    → IsSound svc (before ++ w ∷ after)
    → IsSound (give_back w svc) (before ++ after)
unfolding give_back
give_back-IsSound w before after svc h = record {
  permitted = record { global = p.global; workflow = p.workflow };
  accounts = ground (
    arith,
    h.accounts,
    ap length (held-middle w svc before after),
    length-middle w g after,
    ap length rest,
  );
  peak = h.peak;
  queue = h.queue;
  unique = h.unique;
  fresh = h.fresh;
}
  where
    g : List String
    g = workflows svc.granted ++ before

    rest : held svc (before ++ after) ≡ g ++ after
    rest = sym (append_assoc (workflows svc.granted) before after)

    p : IsPermitted (give_back w svc) (held svc (before ++ after))
    p = subst (IsPermitted (give_back w svc)) (sym rest) (
        give_back-IsPermitted w g after svc
          (subst (IsPermitted svc) (held-middle w svc before after) h.permitted))

Step-IsSound : {s t : System} → Step s t → IsSound s.svc s.holders → IsSound t.svc t.holders
Step-IsSound {s} {t} (begin opts now e) h =
    subst (λ u. IsSound u.svc u.holders) (sym e) (begin-IsSound opts now s.svc s.holders h)
Step-IsSound {s} {t} (wake w q can e) h =
    subst (λ u. IsSound u.svc u.holders) (sym e) (after_select-IsSound w q s.svc s.holders can h)
Step-IsSound {s} {t} (finish w before after e' e) h =
    subst (λ u. IsSound u.svc u.holders) (sym e)
      (unfold release in
        dispatch-IsSound (give_back w s.svc) (before ++ after)
          (give_back-IsSound w before after s.svc (subst (IsSound s.svc) e' h)))

pub Reach-IsSound : {s t : System} → Reach s t → IsSound s.svc s.holders → IsSound t.svc t.holders
Reach-IsSound here h = h
Reach-IsSound (next r st) h = Step-IsSound st (Reach-IsSound r h)

dispatch-config : (svc : Service) → (dispatch svc).config ≡ svc.config
unfolding grant record_acquire
dispatch-config svc =
    dispatch_induction (λ s. s.config ≡ svc.config)
      (λ q before after s e k h. (try_acquire-SameFrame q.workflow_id s).config ∙ h) svc refl

wait_with_options-config :
    (opts : WaitOptions) (now : ℕ) (svc : Service)
    → (wait_with_options opts now svc).0.config ≡ svc.config
unfolding wait_with_options enqueue_waiter record_acquire
wait_with_options-config opts now svc =
    ground (arith, (try_acquire-SameFrame opts.workflow_id svc).config)

after_select-config :
    (w : Wake) (q : QueuedExecution) (svc : Service) → (after_select w q svc).0.config ≡ svc.config
unfolding after_select leave
after_select-config ready q svc = refl
after_select-config done q svc = ground arith

release-config : (w : String) (svc : Service) → (release w svc).config ≡ svc.config
unfolding release give_back
release-config w svc = dispatch-config (give_back w svc)

keep_begin-svc :
    (opts : WaitOptions) (holders : List String) (r : Service × Begin)
    → (keep_begin opts holders r).svc ≡ r.0
keep_begin-svc opts holders r = ground arith

keep_wake-svc : (holders : List String) (r : Service × WaitResult) → (keep_wake holders r).svc ≡ r.0
keep_wake-svc holders r = ground arith

Step-config : {s t : System} → Step s t → t.svc.config ≡ s.svc.config
Step-config {s} {t} (begin opts now e) = ground (
  arith,
  e,
  keep_begin-svc opts s.holders (wait_with_options opts now s.svc),
  wait_with_options-config opts now s.svc,
)
Step-config {s} {t} (wake w q can e) =
    ground
      (arith, e, keep_wake-svc s.holders (after_select w q s.svc), after_select-config w q s.svc)
Step-config {s} {t} (finish w before after e' e) = ground (arith, e, release-config w s.svc)

pub Reach-config : {s t : System} → Reach s t → t.svc.config ≡ s.svc.config
Reach-config here = refl
Reach-config (next r st) = Step-config st ∙ Reach-config r
