-- ===== src/Job/Sound.antt =====
-- The invariant of the manager: who waits, who runs, and which keys are taken.
pub mod Lists
use mahiron.Base.{
  ℕ, suc, ◌≤◌, ◌≡◌, refl, sym, subst, ◌∙◌, Bool, true, false, ◌||◌, not, List, [], ◌∷◌, ◌++◌,
  length, ◌==◌, if◌then◌else◌, arith, Bool-cases, inl, inr, ◌⊎◌, ==_iff,
}
use mahiron.Base.Members.{
  mem, IsUnique, take_out, mem-take_out, mem-take_out_le, take_out-IsUnique, append-IsUnique,
  mem-append, length-take_out,
}
use mahiron.Job.{JobStatus, is_finished, is_standby, Job, JobManager, put, mark, mark_all}

-- One job: its channel is closed exactly if it is finished, and it retries at most as often as it may.
pub record IsFit (job : Job) : Type 0 where
  pub closed : job.closes ≡ (if is_finished job.status then 1 else 0)
  pub retries : job.retry_count ≤ length job.definition.retry_delays

-- The parts of the manager that the invariant reads.
pub record Sound (jobs : ℕ → Job) (history queue active : List ℕ) (taken exclusive : ℕ → Bool)
    : Type 0 where
  pub queue_unique : IsUnique queue
  pub active_unique : IsUnique active
  pub waits : (k : ℕ) → mem k queue ≡ true → (jobs k).status ≡ JobStatus.queued
  pub runs : (k : ℕ) → mem k active ≡ true → (jobs k).status ≡ JobStatus.running
  pub queue_known : (k : ℕ) → mem k queue ≡ true → mem k history ≡ true
  pub active_known : (k : ℕ) → mem k active ≡ true → mem k history ≡ true
  pub standby_known : (k : ℕ) → is_standby (jobs k).status ≡ true → mem k history ≡ true
  pub fit : (k : ℕ) → mem k history ≡ true → IsFit (jobs k)
  pub keyed :
      (k : ℕ)
      → mem k history ≡ true
      → is_finished (jobs k).status ≡ false
      → taken (jobs k).key ≡ true
  pub one_each :
      (j k : ℕ)
      → mem j history ≡ true
      → mem k history ≡ true
      → is_finished (jobs j).status ≡ false
      → is_finished (jobs k).status ≡ false
      → (jobs j).key ≡ (jobs k).key
      → j ≡ k
  pub marked :
      (k x : ℕ)
      → mem k active ≡ true
      → mem x (jobs k).definition.exclusive_keys ≡ true
      → exclusive x ≡ true
  pub apart :
      (j k x : ℕ)
      → mem j active ≡ true
      → mem k active ≡ true
      → mem x (jobs j).definition.exclusive_keys ≡ true
      → mem x (jobs k).definition.exclusive_keys ≡ true
      → j ≡ k

-- A job that waits or is about to: known, not finished, neither in the queue nor running.
pub record Loose (jobs : ℕ → Job) (history queue active : List ℕ) (id : ℕ) : Type 0 where
  pub known : mem id history ≡ true
  pub off_queue : mem id queue ≡ false
  pub off_active : mem id active ≡ false
  pub unfinished : is_finished (jobs id).status ≡ false

-- What an update of a job keeps.
pub record Same (new old : Job) : Type 0 where
  pub same_key : new.key ≡ old.key
  pub same_definition : new.definition ≡ old.definition
  pub still_fit : IsFit new

pub put-IsFit :
    (id k : ℕ) (new : Job) (jobs : ℕ → Job)
    → (id ≡ k → IsFit new)
    → ((id == k) ≡ false → IsFit (jobs k))
    → IsFit (put id new jobs k)
unfolding put
put-IsFit id k new jobs p q = elim (Bool-cases (id == k)) [
  | inl e ↦ rw e (p ((==_iff id k).0 e))
  | inr e ↦ rw e (q e)
]

pub mark_all-mem :
    (l : List ℕ) (b : Bool) (f : ℕ → Bool) (x : ℕ) → mark_all l b f x ≡ (if mem x l then b else f x)
unfolding mark_all mark mem
mark_all-mem [] b f x = refl
mark_all-mem (y ∷ l) b f x = ground (arith, mark_all-mem l b (mark y b f) x)

module _ {jobs : ℕ → Job} {history queue active : List ℕ} {taken exclusive : ℕ → Bool}
    (s : Sound jobs history queue active taken exclusive) where
  -- A loose job is written: to any state, since it is in neither list.
  pub put-Sound :
      (id : ℕ) (new : Job)
      → Loose jobs history queue active id
      → Same new (jobs id)
      → Sound (put id new jobs) history queue active taken exclusive
  unfolding put
  put-Sound id new l e = record {
    queue_unique = s.queue_unique;
    active_unique = s.active_unique;
    waits = λ k h. ground (arith, s.waits k h, l.off_queue);
    runs = λ k h. ground (arith, s.runs k h, l.off_active);
    queue_known = s.queue_known;
    active_known = s.active_known;
    standby_known = λ k h. ground (arith, s.standby_known k, l.known);
    fit = λ k h. put-IsFit id k new jobs (λ i. e.still_fit) (λ i. s.fit k h);
    keyed = λ k h u. ground (arith, s.keyed k h, l.unfinished, e.same_key);
    one_each = λ j k hj hk uj uk q. ground (arith, s.one_each j k hj hk, l.unfinished, e.same_key);
    marked = λ k x h hx. ground (arith, s.marked k x h, l.off_active);
    apart = λ j k x hj hk hx hy. ground (arith, s.apart j k x hj hk, l.off_active);
  }

  -- A write that leaves the job's state as it is.
  pub touch-Sound :
      (id : ℕ) (new : Job)
      → new.status ≡ (jobs id).status
      → (mem id history ≡ true → IsFit new)
      → new.definition ≡ (jobs id).definition
      → new.key ≡ (jobs id).key
      → Sound (put id new jobs) history queue active taken exclusive
  unfolding put
  touch-Sound id new st e d q = record {
    queue_unique = s.queue_unique;
    active_unique = s.active_unique;
    waits = λ k h. ground (arith, s.waits k h, st);
    runs = λ k h. ground (arith, s.runs k h, st);
    queue_known = s.queue_known;
    active_known = s.active_known;
    standby_known = λ k h. ground (arith, s.standby_known k, st);
    fit = λ k h. put-IsFit id k new jobs (λ i. e (rw i h)) (λ i. s.fit k h);
    keyed = λ k h u. ground (arith, s.keyed k h, st, q);
    one_each = λ j k hj hk uj uk e'. ground (arith, s.one_each j k hj hk, st, q);
    marked = λ k x h hx. ground (arith, s.marked k x h, d);
    apart = λ j k x hj hk hx hy. ground (arith, s.apart j k x hj hk, d);
  }

  -- The end of a run.
  pub release-Sound :
      (id : ℕ)
      → mem id active ≡ true
      → Sound jobs history queue
          (take_out id active)
          taken
          (mark_all (jobs id).definition.exclusive_keys false exclusive)
  release-Sound id a = record {
    queue_unique = s.queue_unique;
    active_unique = take_out-IsUnique id active s.active_unique;
    waits = s.waits;
    runs = λ k h. s.runs k (mem-take_out_le id k active h);
    queue_known = s.queue_known;
    active_known = λ k h. s.active_known k (mem-take_out_le id k active h);
    standby_known = s.standby_known;
    fit = s.fit;
    keyed = s.keyed;
    one_each = s.one_each;
    marked = λ k x h hx. ground (
      arith,
      mark_all-mem (jobs id).definition.exclusive_keys false exclusive x,
      s.marked k x,
      mem-take_out id k active s.active_unique,
      s.apart id k x a,
    );
    apart = λ j k x hj hk hx hy.
        s.apart j k x (mem-take_out_le id j active hj) (mem-take_out_le id k active hk) hx hy;
  }

  -- The start of a run, of a job that is marked as running.
  pub activate-Sound :
      (id : ℕ)
      → mem id history ≡ true
      → mem id active ≡ false
      → (jobs id).status ≡ JobStatus.running
      → ((x : ℕ) → mem x (jobs id).definition.exclusive_keys ≡ true → exclusive x ≡ false)
      → Sound jobs history queue
          (id ∷ active)
          taken
          (mark_all (jobs id).definition.exclusive_keys true exclusive)
  unfolding mem
  activate-Sound id known off st free = record {
    queue_unique = s.queue_unique;
    active_unique = (off, s.active_unique);
    waits = s.waits;
    runs = λ k h. ground (arith, s.runs k, st);
    queue_known = s.queue_known;
    active_known = λ k h. ground (arith, s.active_known k, known);
    standby_known = s.standby_known;
    fit = s.fit;
    keyed = s.keyed;
    one_each = s.one_each;
    marked = λ k x h hx.
        ground
          (arith, mark_all-mem (jobs id).definition.exclusive_keys true exclusive x, s.marked k x);
    apart = λ j k x hj hk hx hy. ground (arith, s.apart j k x, s.marked j x, s.marked k x, free x);
  }
