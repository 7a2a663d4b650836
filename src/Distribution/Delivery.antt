-- ===== src/Distribution/Delivery.antt =====
-- Whether a result reaches its waiter (internal/engine/distribution/local.go).
use n8n_turbo.Prelude.{
  ℕ, ◌≡◌, ap, ◌∙◌, arith, true, false, String, none, some, ◌==◌, string_eq, nat_eq, beq_refl,
}
use n8n_turbo.Prelude.Map.{lookup, insert, lookup-insert}
use n8n_turbo.Distribution.Job.{JobResult, first_non_empty}
use n8n_turbo.Distribution.Local.{Channel, LocalDistributor, deactivate}
use n8n_turbo.Distribution.Results.{
  load_completed, join, claim, send_result, store_completed, publish, hand_over, acknowledge,
  receive, answered, selecting, recheck, begin_wait, result, zero_result, still_waiting, on_result,
}

-- The result as `Acknowledge` hands it over.
abbrev pub named : String → JobResult → JobResult
named job_id r = record r { job_id = first_non_empty r.job_id job_id }

abbrev pub open_channel : Channel
open_channel = record { buffer = none; is_closed = false }

deactivate-waiters :
    (job_id : String) (d : LocalDistributor)
    → ((deactivate job_id d).waiters ≡ d.waiters)
      × ((deactivate job_id d).channels ≡ d.channels)
      × ((deactivate job_id d).completed ≡ d.completed)
unfolding deactivate
deactivate-waiters job_id d = ground arith

abbrev pub sent_channel : JobResult → Channel
sent_channel r = record { buffer = some r; is_closed = true }

abbrev pub drained_channel : Channel
drained_channel = record { buffer = none; is_closed = true }

-- A receive from a channel that holds a result takes it out.
on_result-sent :
    (ch : ℕ) (r : JobResult) (d : LocalDistributor)
    → lookup ch d.channels ≡ some (sent_channel r)
    → on_result ch d ≡ (record d { channels = insert ch drained_channel d.channels }, result r)
unfolding on_result receive
on_result-sent ch r d e = ground (arith, e)

on_result-drained :
    (ch : ℕ) (d : LocalDistributor)
    → lookup ch d.channels ≡ some drained_channel
    → (on_result ch d).1 ≡ zero_result
unfolding on_result receive
on_result-drained ch d e = ground (arith, e)

-- `Acknowledge` sends to the channel that waits for the job.
acknowledge-sent :
    (job_id : String) (ch : ℕ) (r : JobResult) (d : LocalDistributor)
    → (job_id == "") ≡ false
    → lookup job_id d.waiters ≡ some ch
    → lookup ch (acknowledge job_id r d).0.channels ≡ some (sent_channel (named job_id r))
unfolding acknowledge claim hand_over send_result publish
acknowledge-sent job_id ch r d named_job there = ground (
  arith,
  deactivate-waiters job_id d,
  there,
  named_job,
  lookup-insert ch ch (sent_channel (named job_id r)) d.channels,
  beq_refl ch,
)

-- A `WaitResult` with no result there and nobody else waiting registers its channel.
begin_wait-selecting :
    (job_id : String) (fresh : ℕ) (d : LocalDistributor)
    → lookup job_id d.waiters ≡ none
    → lookup job_id d.completed ≡ none
    → ((begin_wait job_id fresh d).1 ≡ selecting fresh)
      × (lookup job_id (begin_wait job_id fresh d).0.waiters ≡ some fresh)
unfolding begin_wait load_completed join recheck
begin_wait-selecting job_id fresh d alone early =
    ground (arith, alone, early, lookup-insert job_id job_id fresh d.waiters, beq_refl job_id)

-- With nobody waiting for the job, `Acknowledge` keeps its result for the next `WaitResult`.
pub begin_wait-acknowledge :
    (job_id : String) (fresh : ℕ) (r : JobResult) (d : LocalDistributor)
    → (job_id == "") ≡ false
    → lookup job_id d.waiters ≡ none
    → (begin_wait job_id fresh (acknowledge job_id r d).0).1 ≡ answered (named job_id r)
unfolding begin_wait load_completed acknowledge claim hand_over store_completed publish
begin_wait-acknowledge job_id fresh r d named_job alone = ground (
  arith,
  deactivate-waiters job_id d,
  alone,
  named_job,
  lookup-insert job_id job_id (named job_id r) d.completed,
  beq_refl job_id,
)

-- A `WaitResult` that has begun, with no result there and nobody else waiting, gets the result of the
-- next `Acknowledge`.
pub acknowledge-begin_wait :
    (job_id : String) (fresh : ℕ) (r : JobResult) (d : LocalDistributor)
    → (job_id == "") ≡ false
    → lookup job_id d.waiters ≡ none
    → lookup job_id d.completed ≡ none
    → ((begin_wait job_id fresh d).1 ≡ selecting fresh)
      × ((on_result fresh (acknowledge job_id r (begin_wait job_id fresh d).0).0).1
          ≡ result (named job_id r))
acknowledge-begin_wait job_id fresh r d named_job alone early =
    let (begun, there) = begin_wait-selecting job_id fresh d alone early in
    (
      begun,
      ap (λ x. x.1)
          (on_result-sent fresh (named job_id r)
            (acknowledge job_id r (begin_wait job_id fresh d).0).0
            (acknowledge-sent job_id fresh r (begin_wait job_id fresh d).0 named_job there)),
    )

-- The step `waiters.LoadAndDelete` of `Acknowledge`, then a whole `WaitResult` up to its `select`, then
-- the rest of `Acknowledge`: the waiter sees nothing, though its result is there.
pub lost_result :
    (job_id : String) (fresh : ℕ) (r : JobResult) (d : LocalDistributor)
    → lookup job_id d.waiters ≡ none
    → lookup job_id d.completed ≡ none
    → let (claimed, waiter) = claim job_id d in
      let (waiting, b) = begin_wait job_id fresh claimed in
      let after = hand_over job_id r waiter waiting in
      (b ≡ selecting fresh)
      × ((on_result fresh after).1 ≡ still_waiting)
      × (lookup job_id after.completed ≡ some r)
unfolding begin_wait load_completed join recheck claim hand_over store_completed on_result receive
lost_result job_id fresh r d alone early = ground (
  arith,
  alone,
  early,
  lookup-insert job_id job_id r d.completed,
  lookup-insert fresh fresh open_channel d.channels,
  beq_refl job_id,
  beq_refl fresh,
)

-- Two callers wait on the one channel of a job: the first gets the result, the second gets the zero
-- value of a closed channel, with no error.
pub second_waiter :
    (job_id : String) (ch : ℕ) (r : JobResult) (d : LocalDistributor)
    → (job_id == "") ≡ false
    → lookup job_id d.waiters ≡ some ch
    → let (first, end) = on_result ch (acknowledge job_id r d).0 in
      (end ≡ result (named job_id r)) × ((on_result ch first).1 ≡ zero_result)
second_waiter job_id ch r d named_job there =
    let acked = (acknowledge job_id r d).0 in
    let first =
      on_result-sent ch (named job_id r) acked (acknowledge-sent job_id ch r d named_job there) in
    (
      ap (λ x. x.1) first,
      ap (λ x. (on_result ch x.0).1) first
          ∙ on_result-drained ch
              (record acked { channels = insert ch drained_channel acked.channels })
              (ground (arith, lookup-insert ch ch drained_channel acked.channels, beq_refl ch)),
    )
