-- ===== src/Job.antt =====
-- internal/job/job.go and manager.go: the jobs, the manager's state, and what it does under its lock.
-- Strings, IDs and error texts that are only compared are numbers, 0 the empty string. A `*Job` is the ID
-- of the job, the store `jobs` holds what stands there. A step of the manager reads the clock once, `now`.
-- The context of a run, the goroutine and the wait group behind it show as the entry of `active`.
pub mod Calls
pub mod Pending
pub mod Sound
pub mod Locked
pub mod Starts
pub mod Dispatch
pub mod Steps
pub mod History
pub mod Shutdown
pub mod Safety
pub mod Abort
mod Examples
use mahiron.Base.{
  ℕ, zero, suc, ◌+◌, ◌-◌, Bool, true, false, not, ◌&&◌, ◌||◌, List, [], ◌∷◌, ◌++◌, length, drop,
  get_or, ltb, leb, ◌==◌, if◌then◌else◌, Option, none, some,
}
use mahiron.Base.Assoc.{Map, lookup, insert}
use mahiron.Base.Members.{mem, take_out}

pub data JobStatus : Type 0 where
  queued standby running finished : JobStatus

abbrev pub is_finished : JobStatus → Bool
is_finished JobStatus.finished = true
is_finished JobStatus.queued = false
is_finished JobStatus.standby = false
is_finished JobStatus.running = false

abbrev pub is_standby : JobStatus → Bool
is_standby JobStatus.standby = true
is_standby JobStatus.queued = false
is_standby JobStatus.running = false
is_standby JobStatus.finished = false

-- The error of a handler: `errors.Is(err, context.Canceled)`, and its text.
pub record HandlerError : Type 0 where
  pub canceled : Bool
  pub text : ℕ

-- The handler itself is not known here: `has_handler` says that it is not nil.
pub record JobDefinition : Type 0 where
  pub key : ℕ
  pub name : ℕ
  pub has_handler : Bool
  pub depends_on : List ℕ
  pub exclusive_keys : List ℕ
  pub is_rerunnable : Bool
  pub retry_delays : List ℕ
  pub retry_if : Option (HandlerError → Bool)

-- `closes` counts how often the channel `done` was closed; a second time would be a panic.
pub record Job : Type 0 where
  pub key : ℕ
  pub name : ℕ
  pub status : JobStatus
  pub retry_count : ℕ
  pub is_aborting : Bool
  pub has_aborted : Bool
  pub has_failed : Bool
  pub error : ℕ
  pub result : Option ℕ
  pub created_at : ℕ
  pub updated_at : ℕ
  pub started_at : Option ℕ
  pub finished_at : Option ℕ
  pub next_run_at : Option ℕ
  pub definition : JobDefinition
  pub closes : ℕ

pub data EventType : Type 0 where
  create update : EventType

pub record JobEvent : Type 0 where
  pub kind : EventType
  pub job : Job

-- `active` lists the keys of the map of cancel functions, `cancelled` the IDs whose function was called;
-- the two maps into `bool` are functions. `changes` counts the channels `changed` that were closed.
-- `spare` holds the slots of the history's array behind its length: a loop over the history that
-- began before a removal still reads them.
pub record JobManager : Type 0 where
  pub definitions : Map JobDefinition
  pub jobs : ℕ → Job
  pub history : List ℕ
  pub spare : List ℕ
  pub queue : List ℕ
  pub active : List ℕ
  pub cancelled : List ℕ
  pub active_keys : ℕ → Bool
  pub active_exclusive_keys : ℕ → Bool
  pub running : ℕ
  pub max_concurrent : ℕ
  pub max_history : ℕ
  pub is_shutdown : Bool
  pub changes : ℕ
  pub has_events : Bool
  pub published : List JobEvent

-- What Go's zeroed memory and `newJob` below start from.
abbrev pub no_definition : JobDefinition
no_definition = record {
  key = 0;
  name = 0;
  has_handler = false;
  depends_on = [];
  exclusive_keys = [];
  is_rerunnable = false;
  retry_delays = [];
  retry_if = none;
}

abbrev pub new_job : ℕ → JobDefinition → Job
new_job now def = record {
  key = def.key;
  name = def.name;
  status = JobStatus.queued;
  retry_count = 0;
  is_aborting = false;
  has_aborted = false;
  has_failed = false;
  error = 0;
  result = none;
  created_at = now;
  updated_at = now;
  started_at = none;
  finished_at = none;
  next_run_at = none;
  definition = def;
  closes = 0;
}

-- A limit of the configuration below 1 is as 0 here: both give the default.
unfoldable pub new_manager : ℕ → ℕ → Bool → JobManager
new_manager max_history max_concurrent has_events = record {
  definitions = [];
  jobs = λ id. new_job 0 no_definition;
  history = [];
  spare = [];
  queue = [];
  active = [];
  cancelled = [];
  active_keys = λ k. false;
  active_exclusive_keys = λ k. false;
  running = 0;
  max_concurrent = if max_concurrent == 0 then 1 else max_concurrent;
  max_history = if max_history == 0 then 100 else max_history;
  is_shutdown = false;
  changes = 0;
  has_events = has_events;
  published = [];
}

unfoldable pub register : JobDefinition → JobManager → JobManager
register def m = record m { definitions = insert def.key def m.definitions }

-- Writes to the store and to the maps.
unfoldable pub put : ℕ → Job → (ℕ → Job) → ℕ → Job
put id job jobs k = if id == k then job else jobs k

unfoldable pub mark : ℕ → Bool → (ℕ → Bool) → ℕ → Bool
mark key value keys k = if key == k then value else keys k

unfoldable pub mark_all : List ℕ → Bool → (ℕ → Bool) → ℕ → Bool
mark_all [] value keys = keys
mark_all (key ∷ rest) value keys = mark_all rest value (mark key value keys)

-- `publishJobChangeLocked`, with the job as it stands now.
unfoldable pub publish_change : EventType → ℕ → JobManager → JobManager
publish_change kind id m = record m {
  changes = suc m.changes;
  published =
      if m.has_events
      then m.published ++ record { kind = kind; job = m.jobs id } ∷ []
      else m.published;
}

-- The first finished job of the history removed.
unfoldable pub drop_finished : (ℕ → Job) → List ℕ → Option (List ℕ)
drop_finished jobs [] = none
drop_finished jobs (id ∷ rest) =
    let later = drop_finished jobs rest in
    if is_finished (jobs id).status
    then some rest
    else elim later [ none ↦ none | some shorter ↦ some (id ∷ shorter) ]

-- One round of `trimHistory` on the history and the slots behind it, if it goes on: what follows the
-- removed entry moves down in the array, and the last slot keeps what it held.
unfoldable pub trim_round : (ℕ → Job) → ℕ → List ℕ → List ℕ → Option (List ℕ × List ℕ)
trim_round jobs max_history history spare =
    if ltb max_history (length history)
    then elim (drop_finished jobs history) [
      | none ↦ none
      | some shorter ↦ some (shorter, get_or history (length history - 1) 0 ∷ spare)
    ]
    else none

-- The loop: each round makes the history shorter, so its length is fuel enough.
unfoldable pub trim_from : ℕ → (ℕ → Job) → ℕ → List ℕ → List ℕ → List ℕ × List ℕ
trim_from zero jobs max_history history spare = (history, spare)
trim_from (suc fuel) jobs max_history history spare =
    elim (trim_round jobs max_history history spare) [
      | none ↦ (history, spare)
      | some (shorter, behind) ↦ trim_from fuel jobs max_history shorter behind
    ]

unfoldable pub trim_history : JobManager → JobManager
trim_history m =
    let trimmed = trim_from (length m.history) m.jobs m.max_history m.history m.spare in
    record m { history = trimmed.0; spare = trimmed.1 }

-- `append` writes into the first slot behind the history.
unfoldable pub add_history : ℕ → JobManager → JobManager
add_history id m =
    trim_history (record m { history = m.history ++ id ∷ []; spare = drop 1 m.spare })

unfoldable pub enqueue_item : ℕ → JobManager → JobManager
enqueue_item id m = record m { queue = m.queue ++ id ∷ [] }

abbrev none_of : List ℕ → (ℕ → Bool) → Bool
none_of [] keys = true
none_of (key ∷ rest) keys = not (keys key) && none_of rest keys

unfoldable pub dependencies_satisfied : JobManager → JobDefinition → Bool
dependencies_satisfied m def =
    none_of def.depends_on m.active_keys && none_of def.exclusive_keys m.active_exclusive_keys

-- The first job of the queue that may run, and the queue without it.
unfoldable pub pop_runnable : (ℕ → Bool) → List ℕ → Option (ℕ × List ℕ)
pop_runnable may_run [] = none
pop_runnable may_run (id ∷ rest) =
    let later = pop_runnable may_run rest in
    if may_run id
    then some (id, rest)
    else elim later [ none ↦ none | some (found, others) ↦ some (found, id ∷ others) ]

unfoldable pub may_run : JobManager → ℕ → Bool
may_run m id = dependencies_satisfied m (m.jobs id).definition

-- A context made from the cancelled one of a shut-down manager is not met: nothing starts then.
unfoldable pub start_job : ℕ → ℕ → JobManager → JobManager
start_job now id m =
    let job = m.jobs id in
    publish_change EventType.update id (record m {
      jobs =
          put id
            (record job { status = JobStatus.running; started_at = some now; updated_at = now })
            m.jobs;
      active = id ∷ m.active;
      active_exclusive_keys = mark_all job.definition.exclusive_keys true m.active_exclusive_keys;
      running = suc m.running;
    })

-- One round of `dispatchLocked`, if it starts a job.
unfoldable pub dispatch_round : ℕ → JobManager → Option JobManager
dispatch_round now m =
    if ltb m.running m.max_concurrent && (ltb 0 (length m.queue) && not m.is_shutdown)
    then elim (pop_runnable (may_run m) m.queue) [
      | none ↦ none
      | some (id, rest) ↦ some (start_job now id (record m { queue = rest }))
    ]
    else none

-- Each round takes a job off the queue, so its length is fuel enough.
unfoldable pub dispatch_from : ℕ → ℕ → JobManager → JobManager
dispatch_from zero now m = m
dispatch_from (suc fuel) now m = elim (dispatch_round now m) [
  | none ↦ m
  | some started ↦ dispatch_from fuel now started
]

unfoldable pub dispatch : ℕ → JobManager → JobManager
dispatch now m = dispatch_from (length m.queue) now m
