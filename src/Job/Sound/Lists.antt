-- ===== src/Job/Sound/Lists.antt =====
-- The invariant when the queue, the history or the set of taken keys changes.
use mahiron.Base.{ℕ, ◌≡◌, refl, Bool, true, false, List, [], ◌∷◌, ◌++◌, ◌==◌, arith}
use mahiron.Base.Members.{mem, IsUnique, append-IsUnique, mem-append}
use mahiron.Job.{JobStatus, is_finished, Job, put, mark}
use mahiron.Job.Sound.{IsFit, Sound, put-IsFit}

module _ {jobs : ℕ → Job} {history queue active : List ℕ} {taken exclusive : ℕ → Bool}
    (s : Sound jobs history queue active taken exclusive) where
  -- A queue that lost a job.
  pub shorten-Sound :
      (shorter : List ℕ)
      → IsUnique shorter
      → ((k : ℕ) → mem k shorter ≡ true → mem k queue ≡ true)
      → Sound jobs history shorter active taken exclusive
  shorten-Sound shorter u sub = record {
    queue_unique = u;
    active_unique = s.active_unique;
    waits = λ k h. s.waits k (sub k h);
    runs = s.runs;
    queue_known = λ k h. s.queue_known k (sub k h);
    active_known = s.active_known;
    standby_known = s.standby_known;
    fit = s.fit;
    keyed = s.keyed;
    one_each = s.one_each;
    marked = s.marked;
    apart = s.apart;
  }

  -- A queue with one more job.
  pub lengthen-Sound :
      (id : ℕ)
      → mem id history ≡ true
      → mem id queue ≡ false
      → (jobs id).status ≡ JobStatus.queued
      → Sound jobs history (queue ++ id ∷ []) active taken exclusive
  unfolding mem
  lengthen-Sound id known off st = record {
    queue_unique = append-IsUnique id queue off s.queue_unique;
    active_unique = s.active_unique;
    waits = λ k h. ground (arith, s.waits k, mem-append k queue (id ∷ []), st);
    runs = s.runs;
    queue_known = λ k h. ground (arith, s.queue_known k, mem-append k queue (id ∷ []), known);
    active_known = s.active_known;
    standby_known = s.standby_known;
    fit = s.fit;
    keyed = s.keyed;
    one_each = s.one_each;
    marked = s.marked;
    apart = s.apart;
  }

  -- A history that lost finished jobs only.
  pub forget-Sound :
      (shorter : List ℕ)
      → ((k : ℕ) → mem k shorter ≡ true → mem k history ≡ true)
      → ((k : ℕ)
          → mem k history ≡ true
          → is_finished (jobs k).status ≡ false
          → mem k shorter ≡ true)
      → Sound jobs shorter queue active taken exclusive
  forget-Sound shorter sub keep = record {
    queue_unique = s.queue_unique;
    active_unique = s.active_unique;
    waits = s.waits;
    runs = s.runs;
    queue_known = λ k h. keep k (s.queue_known k h) (rw (s.waits k h) refl);
    active_known = λ k h. keep k (s.active_known k h) (rw (s.runs k h) refl);
    standby_known = λ k h. keep k (s.standby_known k h) (ground arith);
    fit = λ k h. s.fit k (sub k h);
    keyed = λ k h. s.keyed k (sub k h);
    one_each = λ j k hj hk. s.one_each j k (sub j hj) (sub k hk);
    marked = s.marked;
    apart = s.apart;
  }

  -- A key that no unfinished job has.
  pub untake-Sound :
      (x : ℕ)
      → ((k : ℕ)
          → mem k history ≡ true
          → is_finished (jobs k).status ≡ false
          → (x == (jobs k).key) ≡ false)
      → Sound jobs history queue active (mark x false taken) exclusive
  unfolding mark
  untake-Sound x free = record {
    queue_unique = s.queue_unique;
    active_unique = s.active_unique;
    waits = s.waits;
    runs = s.runs;
    queue_known = s.queue_known;
    active_known = s.active_known;
    standby_known = s.standby_known;
    fit = s.fit;
    keyed = λ k h u. rw (free k h u) (s.keyed k h u);
    one_each = s.one_each;
    marked = s.marked;
    apart = s.apart;
  }

  -- A new job, with a key that was not taken.
  pub admit-Sound :
      (id : ℕ) (new : Job)
      → mem id history ≡ false
      → taken new.key ≡ false
      → new.status ≡ JobStatus.queued
      → IsFit new
      → Sound
          (put id new jobs)
          (history ++ id ∷ [])
          queue
          active
          (mark new.key true taken)
          exclusive
  unfolding put mark mem
  admit-Sound id new fresh free st ok = record {
    queue_unique = s.queue_unique;
    active_unique = s.active_unique;
    waits = λ k h. ground (arith, s.waits k h, st);
    runs = λ k h. ground (arith, s.runs k h, s.active_known k h);
    queue_known = λ k h. ground (arith, s.queue_known k h, mem-append k history (id ∷ []));
    active_known = λ k h. ground (arith, s.active_known k h, mem-append k history (id ∷ []));
    standby_known = λ k h. ground (arith, s.standby_known k, mem-append k history (id ∷ []));
    fit = λ k h.
        put-IsFit id k new jobs (λ i. ok)
          (λ i. s.fit k (ground (arith, mem-append k history (id ∷ []))));
    keyed = λ k h u. ground (arith, s.keyed k, mem-append k history (id ∷ []));
    one_each = λ j k hj hk uj uk e. ground (
      arith,
      s.one_each j k,
      s.keyed j,
      s.keyed k,
      mem-append j history (id ∷ []),
      mem-append k history (id ∷ []),
    );
    marked = λ k x h hx. ground (arith, s.marked k x h, s.active_known k h);
    apart = λ j k x hj hk hx hy.
        ground (arith, s.apart j k x hj hk, s.active_known j hj, s.active_known k hk);
  }
