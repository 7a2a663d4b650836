-- ===== src/Distribution/Counts.antt =====
-- The queue of internal/engine/distribution/local.go and its counter of pending jobs, while the calls
-- race.
use n8n_turbo.Prelude.{
  ℕ, zero, suc, ◌+◌, ◌≤◌, ◌≡◌, refl, arith, Bool, true, false, List, [], ◌∷◌, ◌++◌, ℤ, pos, negsuc,
  add_one, sub_one, pos_part, length, length-append, count_if, count_if-append, string_eq,
}
use n8n_turbo.Distribution.Job.{Job}
use n8n_turbo.Distribution.Local.{
  LocalConfig, LocalDistributor, new_local_distributor, has_room, push_job, count_pending,
  discount_pending,
}
use n8n_turbo.Distribution.Racing.{
  Flight, sending, storing, counting, deleting, discounting, activating, counting_active, Race,
  Advance, calls, sends, gives_up, stores, counts, receives, deletes, discounts, activates,
  counts_active, others, Reaches, start, next, opened, moved,
}

-- The difference of two numbers.
abbrev pub diff : ℕ → ℕ → ℤ
diff n zero = pos n
diff zero (suc m) = negsuc m
diff (suc n) (suc m) = diff n m

add_one-diff : (a b : ℕ) → add_one (diff a b) ≡ diff (suc a) b
add_one-diff a zero = refl
add_one-diff zero (suc zero) = refl
add_one-diff zero (suc (suc b)) = refl
add_one-diff (suc a) (suc b) = add_one-diff a b

sub_one-diff : (a b : ℕ) → sub_one (diff a b) ≡ diff a (suc b)
sub_one-diff zero zero = refl
sub_one-diff (suc a) zero = refl
sub_one-diff zero (suc b) = refl
sub_one-diff (suc a) (suc b) = sub_one-diff a b

-- The call has sent its job and not yet counted it.
abbrev pub is_late : Flight → Bool
is_late (storing job) = true
is_late counting = true
is_late _ = false

-- The call has received its job and not yet taken it off the count.
abbrev pub is_early : Flight → Bool
is_early (deleting job) = true
is_early (discounting job) = true
is_early _ = false

-- The queue is within its capacity. The counter is the number of jobs in the queue and of those
-- received and not yet taken off the count, less those sent and not yet counted.
pub record IsCounted (s : Race) : Type 0 where
  pub bound : length s.distributor.job_queue ≤ pos_part s.distributor.cfg.queue_size
  pub counted :
      s.distributor.pending_count
      ≡ diff
          (length s.distributor.job_queue + count_if is_early s.flights)
          (count_if is_late s.flights)

count_if-moved :
    (p : Flight → Bool) (flights before later after : List Flight) (flight : Flight)
    → flights ≡ before ++ flight ∷ after
    → count_if p flights + count_if p later
      ≡ count_if p (before ++ (later ++ after)) + count_if p (flight ∷ [])
count_if-moved p flights before later after flight e = ground (
  arith,
  e,
  count_if-append p before (flight ∷ after),
  count_if-append p before (later ++ after),
  count_if-append p later after,
)

abbrev early : Race → ℕ
early s = length s.distributor.job_queue + count_if is_early s.flights

abbrev late : Race → ℕ
late s = count_if is_late s.flights

-- A step that changes neither side.
IsCounted-same :
    (s t : Race)
    → length t.distributor.job_queue ≤ length s.distributor.job_queue
    → t.distributor.cfg ≡ s.distributor.cfg
    → t.distributor.pending_count ≡ s.distributor.pending_count
    → early t ≡ early s
    → late t ≡ late s
    → IsCounted s
    → IsCounted t
IsCounted-same s t shorter cfg number e l h = record {
  bound = ground (arith, h.bound, shorter, cfg);
  counted = rw (number, e, l) h.counted;
}

-- One call goes on; the queue stays.
moved_on :
    (s : Race) (d : LocalDistributor) (before later after : List Flight) (flight : Flight)
    → s.flights ≡ before ++ flight ∷ after
    → d.job_queue ≡ s.distributor.job_queue
    → d.cfg ≡ s.distributor.cfg
    → d.pending_count ≡ s.distributor.pending_count
    → count_if is_early later ≡ count_if is_early (flight ∷ [])
    → count_if is_late later ≡ count_if is_late (flight ∷ [])
    → IsCounted s
    → IsCounted (moved d before later after)
moved_on s d before later after flight there queue cfg number e l =
    IsCounted-same s (moved d before later after) (ground (arith, queue)) cfg number
      (ground (arith, queue, e, count_if-moved is_early s.flights before later after flight there))
      (ground (arith, l, count_if-moved is_late s.flights before later after flight there))

push_job-IsCounted :
    (s : Race) (before after : List Flight) (job : Job)
    → s.flights ≡ before ++ sending job ∷ after
    → has_room s.distributor ≡ true
    → IsCounted s
    → IsCounted (moved (push_job job s.distributor) before (storing job ∷ []) after)
push_job-IsCounted s before after job there room h =
    let t = moved (push_job job s.distributor) before (storing job ∷ []) after in
    let longer = length-append s.distributor.job_queue (job ∷ []) in
    let e : early t ≡ suc (early s) = ground (
      arith,
      longer,
      count_if-moved is_early s.flights before (storing job ∷ []) after (sending job) there,
    ) in
    let l : late t ≡ suc (late s) = ground (
      arith,
      count_if-moved is_late s.flights before (storing job ∷ []) after (sending job) there,
    ) in
    record { bound = ground (arith, room, longer); counted = rw (e, l) h.counted }

count_pending-IsCounted :
    (s : Race) (before after : List Flight)
    → s.flights ≡ before ++ counting ∷ after
    → IsCounted s
    → IsCounted (moved (count_pending s.distributor) before [] after)
count_pending-IsCounted s before after there h =
    let t = moved (count_pending s.distributor) before [] after in
    let e : early t ≡ early s =
      ground (arith, count_if-moved is_early s.flights before [] after counting there) in
    let l : late s ≡ suc (late t) =
      ground (arith, count_if-moved is_late s.flights before [] after counting there) in
    record {
      bound = h.bound;
      counted = rw (h.counted, e, l) (add_one-diff (early s) (suc (late t)));
    }

discount_pending-IsCounted :
    (s : Race) (before after : List Flight) (job : Job)
    → s.flights ≡ before ++ discounting job ∷ after
    → IsCounted s
    → IsCounted (moved (discount_pending s.distributor) before (activating job ∷ []) after)
discount_pending-IsCounted s before after job there h =
    let t = moved (discount_pending s.distributor) before (activating job ∷ []) after in
    let e : early s ≡ suc (early t) = ground (
      arith,
      count_if-moved is_early s.flights before (activating job ∷ []) after (discounting job) there,
    ) in
    let l : late t ≡ late s = ground (
      arith,
      count_if-moved is_late s.flights before (activating job ∷ []) after (discounting job) there,
    ) in
    record {
      bound = h.bound;
      counted = rw (h.counted, e, l) (sub_one-diff (suc (early t)) (late s));
    }

advance-IsCounted : (s t : Race) → Advance s t → IsCounted s → IsCounted t
advance-IsCounted s t (calls now job unclosed named) h = record {
  bound = h.bound;
  counted = h.counted;
}
advance-IsCounted s t (sends before after job there room) h =
    push_job-IsCounted s before after job there room h
advance-IsCounted s t (gives_up before after job there) h =
    moved_on s _ before [] after (sending job) there refl refl refl refl refl h
advance-IsCounted s t (stores before after job there) h =
    moved_on s _ before (counting ∷ []) after (storing job) there refl refl refl refl refl h
advance-IsCounted s t (counts before after there) h = count_pending-IsCounted s before after there h
advance-IsCounted s t (receives job rest first) h =
    IsCounted-same s t (ground (arith, first)) refl refl (ground (arith, first)) refl h
advance-IsCounted s t (deletes before after job there) h =
    moved_on s _ before (discounting job ∷ []) after (deleting job) there refl refl refl refl refl h
advance-IsCounted s t (discounts before after job there) h =
    discount_pending-IsCounted s before after job there h
advance-IsCounted s t (activates before after job there) h =
    moved_on s _ before (counting_active ∷ []) after (activating job) there refl refl refl refl refl
      h
advance-IsCounted s t (counts_active before after there) h =
    moved_on s _ before [] after counting_active there refl refl refl refl refl h
advance-IsCounted s t (others d queue pending number cfg) h =
    IsCounted-same s t (ground (arith, queue)) cfg number (ground (arith, queue)) refl h

reaches-IsCounted : (s t : Race) → Reaches s t → IsCounted s → IsCounted t
reaches-IsCounted s t start h = h
reaches-IsCounted s t (next {t = m} r step) h =
    advance-IsCounted m t step (reaches-IsCounted s m r h)

-- However the operations of the calls to enqueue and to dequeue interleave, from a new distributor on:
-- the queue is within its capacity, and the counter of pending jobs is the number of those in the
-- queue and of those received and not yet taken off the count, less those sent and not yet counted.
pub opened-IsCounted : (cfg : LocalConfig) (s : Race) → Reaches (opened cfg) s → IsCounted s
unfolding new_local_distributor
opened-IsCounted cfg s r =
    reaches-IsCounted (opened cfg) s r (record { bound = omega arith; counted = refl })
