-- ===== src/Tasks.antt =====
-- server/dvadva-agent/src/tasks.rs: the background shell processes, in memory and on disk.
-- `F` is the floating-point numbers, and `now` is what `unix_now` gives. A call changes the registry
-- under its lock, in one step, and writes its files after it has released the lock: what it has yet
-- to write is in flight and lands in a later step, in any order and with any outcome. Of the files
-- of a task `runtime.json` is modelled, without its worker's pid and update time, and of a
-- notification's, which no other call touches, the task and the status it names; they land together.
pub mod Truth
pub mod Agreement
use rusty_kimi.Common.{
  ℕ, zero, suc, ◌+◌, String, Bool, true, false, not, ◌||◌, ◌&&◌, List, [], ◌∷◌, ◌++◌, Option, none,
  some, length, map, select, if◌then◌else◌,
}
use rusty_kimi.Common.Eq.{string_eq}
use rusty_kimi.Common.Dict.{Dict, lookup, insert}
use rusty_kimi.Common.Int.{ℤ}

pub record TaskSpec : Type 0 where
  pub id : String
  pub description : String
  pub command : String
  pub shell_path : String
  pub cwd : String
  pub timeout_s : ℤ
  pub child_pid : Option ℕ

pub data TaskStatus : Type 0 where
  running completed failed killed timed_out : TaskStatus

unfoldable pub as_str : TaskStatus → String
as_str running = "running"
as_str completed = "completed"
as_str failed = "failed"
as_str killed = "killed"
as_str timed_out = "timed_out"

unfoldable pub is_terminal : TaskStatus → Bool
is_terminal running = false
is_terminal _ = true

abbrev pub is_killed : TaskStatus → Bool
is_killed killed = true
is_killed _ = false

abbrev pub is_timed_out : TaskStatus → Bool
is_timed_out timed_out = true
is_timed_out _ = false

-- `kill_sender`: the sender has not been taken yet. `woken` counts the calls of `notify_waiters`.
pub record TaskEntry (F : Type 0) : Type 0 where
  pub spec : TaskSpec
  pub status : TaskStatus
  pub exit_code : Option ℤ
  pub stdout : List ℕ
  pub stderr : List ℕ
  pub created_at : F
  pub completed_at : Option F
  pub woken : ℕ
  pub kill_sender : Bool

pub record TaskView (F : Type 0) : Type 0 where
  pub spec : TaskSpec
  pub status : TaskStatus
  pub exit_code : Option ℤ
  pub created_at : F
  pub completed_at : Option F
  pub stdout_len : ℕ
  pub stderr_len : ℕ

pub record TaskRuntimeFile (F : Type 0) : Type 0 where
  pub status : String
  pub child_pid : Option ℕ
  pub exit_code : Option ℤ
  pub started_at : F
  pub finished_at : Option F
  pub interrupted : Bool
  pub timed_out : Bool

-- What a call has yet to write of a task, and the task and status to notify of.
pub record Flight (F : Type 0) : Type 0 where
  pub task : String
  pub file : TaskRuntimeFile F
  pub notice : Option (String × TaskStatus)

-- A write succeeds, fails before it touches the file (the directory included), or fails and leaves
-- what is no record. A failure is only logged.
pub data Write : Type 0 where
  written untouched spoilt : Write

-- `runtime_files`: `none` for what is no record. `signals`: the tasks whose kill signal was sent, the latest last.
pub record BackgroundTaskManager (F : Type 0) : Type 0 where
  pub tasks : Dict String (TaskEntry F)
  pub runtime_files : Dict String (Option (TaskRuntimeFile F))
  pub in_flight : List (Flight F)
  pub events : List (String × TaskStatus)
  pub signals : List String

pub data KillError : Type 0 where
  task_not_found already_terminal : KillError

module _ {F : Type 0} where
  unfoldable pub new : BackgroundTaskManager F
  new = record { tasks = []; runtime_files = []; in_flight = []; events = []; signals = [] }

  unfoldable pub write_runtime_file :
      Write → String → TaskRuntimeFile F → BackgroundTaskManager F → BackgroundTaskManager F
  unfolding insert
  write_runtime_file written id file m = record m {
    runtime_files = insert id (some file) m.runtime_files;
  }
  write_runtime_file untouched id file m = m
  write_runtime_file spoilt id file m = record m { runtime_files = insert id none m.runtime_files }

  -- The registry's change, with what is left to write.
  unfoldable pub released :
      TaskEntry F → Flight F → BackgroundTaskManager F → BackgroundTaskManager F
  unfolding insert
  released entry flight m = record m {
    tasks = insert flight.task entry m.tasks;
    in_flight = m.in_flight ++ flight ∷ [];
  }

  abbrev pub new_entry : F → TaskSpec → TaskEntry F
  new_entry now spec = record {
    spec = spec;
    status = running;
    exit_code = none;
    stdout = [];
    stderr = [];
    created_at = now;
    completed_at = none;
    woken = 0;
    kill_sender = true;
  }

  abbrev pub new_flight : F → TaskSpec → Flight F
  new_flight now spec = record {
    task = spec.id;
    file = record {
      status = as_str running;
      child_pid = spec.child_pid;
      exit_code = none;
      started_at = now;
      finished_at = none;
      interrupted = false;
      timed_out = false;
    };
    notice = none;
  }

  unfoldable pub register : F → TaskSpec → BackgroundTaskManager F → BackgroundTaskManager F
  unfolding as_str released
  register now spec m = released (new_entry now spec) (new_flight now spec) m

  -- A notification is written for a terminal status only, if its directory can be made.
  unfoldable pub write_notification_files :
      Bool → Option (String × TaskStatus) → BackgroundTaskManager F → BackgroundTaskManager F
  unfolding is_terminal
  write_notification_files made (some (id, status)) m =
      if made && is_terminal status then record m { events = m.events ++ (id, status) ∷ [] } else m
  write_notification_files made none m = m

  abbrev pub prefixed :
      Flight F → Option (Flight F × List (Flight F)) → Option (Flight F × List (Flight F))
  prefixed x none = none
  prefixed x (some (y, ys)) = some (y, x ∷ ys)

  -- The `n`-th and the others.
  abbrev pub pick : ℕ → List (Flight F) → Option (Flight F × List (Flight F))
  pick n [] = none
  pick zero (x ∷ xs) = some (x, xs)
  pick (suc n) (x ∷ xs) = prefixed x (pick n xs)

  unfoldable pub land_picked :
      Write
      → Bool
      → Option (Flight F × List (Flight F))
      → BackgroundTaskManager F
      → BackgroundTaskManager F
  unfolding write_runtime_file write_notification_files
  land_picked write made none m = m
  land_picked write made (some (flight, rest)) m =
      write_notification_files made flight.notice
        (write_runtime_file write flight.task flight.file (record m { in_flight = rest }))

  -- The `n`-th of the calls in flight writes its files.
  unfoldable pub land : ℕ → Write → Bool → BackgroundTaskManager F → BackgroundTaskManager F
  unfolding land_picked
  land n write made m = land_picked write made (pick n m.in_flight) m

  abbrev pub completed_entry : F → TaskStatus → Option ℤ → TaskEntry F → TaskEntry F
  completed_entry now status exit_code entry = record entry {
    status = status;
    exit_code = exit_code;
    completed_at = some now;
    woken = entry.woken + 1;
  }

  abbrev pub completed_flight : F → String → TaskStatus → Option ℤ → TaskEntry F → Flight F
  completed_flight now id status exit_code entry = record {
    task = id;
    file = record {
      status = as_str status;
      child_pid = entry.spec.child_pid;
      exit_code = exit_code;
      started_at = entry.created_at;
      finished_at = some now;
      interrupted = is_killed status;
      timed_out = is_timed_out status;
    };
    notice = some (entry.spec.id, status);
  }

  unfoldable pub complete_found :
      F
      → String
      → TaskStatus
      → Option ℤ
      → Option (TaskEntry F)
      → BackgroundTaskManager F
      → BackgroundTaskManager F
  unfolding as_str released
  complete_found now id status exit_code none m = m
  complete_found now id status exit_code (some entry) m =
      released (completed_entry now status exit_code entry)
        (completed_flight now id status exit_code entry) m

  unfoldable pub complete :
      F → String → TaskStatus → Option ℤ → BackgroundTaskManager F → BackgroundTaskManager F
  unfolding complete_found
  complete now id status exit_code m = complete_found now id status exit_code (lookup id m.tasks) m

  unfoldable pub view : TaskEntry F → TaskView F
  view e = record {
    spec = e.spec;
    status = e.status;
    exit_code = e.exit_code;
    created_at = e.created_at;
    completed_at = e.completed_at;
    stdout_len = length e.stdout;
    stderr_len = length e.stderr;
  }

  unfoldable pub get : String → BackgroundTaskManager F → Option (TaskView F)
  unfolding view
  get id m = elim (lookup id m.tasks) [ none ↦ none | some e ↦ some (view e) ]

  unfoldable pub list : Bool → BackgroundTaskManager F → List (TaskView F)
  unfolding view is_terminal
  list active_only m =
      map (λ (e : String × TaskEntry F). view e.1)
        (select (λ e. not active_only || not (is_terminal e.1.status)) m.tasks)

  abbrev pub killed_entry : F → TaskEntry F → TaskEntry F
  killed_entry now entry = record entry {
    status = killed;
    completed_at = some now;
    woken = entry.woken + 1;
    kill_sender = false;
  }

  -- The file gets the time of a second look at the clock, `later`.
  abbrev pub killed_flight : F → String → TaskEntry F → Flight F
  killed_flight later id entry = record {
    task = id;
    file = record {
      status = "killed";
      child_pid = entry.spec.child_pid;
      exit_code = none;
      started_at = entry.created_at;
      finished_at = some later;
      interrupted = true;
      timed_out = false;
    };
    notice = none;
  }

  unfoldable pub kill_running :
      F → F → String → TaskEntry F → BackgroundTaskManager F → BackgroundTaskManager F
  unfolding released
  kill_running now later id entry m =
      released (killed_entry now entry) (killed_flight later id entry)
        (record m { signals = if entry.kill_sender then m.signals ++ id ∷ [] else m.signals })

  -- `none` is `Ok(())`.
  unfoldable pub kill_found :
      F
      → F
      → String
      → Option (TaskEntry F)
      → BackgroundTaskManager F
      → BackgroundTaskManager F × Option KillError
  unfolding kill_running is_terminal
  kill_found now later id none m = (m, some task_not_found)
  kill_found now later id (some entry) m =
      if is_terminal entry.status
      then (m, some already_terminal)
      else (kill_running now later id entry m, none)

  unfoldable pub kill :
      F → F → String → BackgroundTaskManager F → BackgroundTaskManager F × Option KillError
  unfolding kill_found
  kill now later id m = kill_found now later id (lookup id m.tasks) m
