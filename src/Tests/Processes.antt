-- ===== src/Tests/Processes.antt =====
-- Background tasks that end, are killed, or do not exist, and calls that overlap.
use rusty_kimi.Common.{ℕ, ◌≡◌, refl, String, true, false, List, [], ◌∷◌, Option, none, some}
use rusty_kimi.Common.Eq.{string_eq}
use rusty_kimi.Common.Dict.{lookup, insert}
use rusty_kimi.Common.Int.{pos}
use rusty_kimi.Tasks.{
  TaskSpec, TaskEntry, TaskStatus, completed, written, already_terminal, new, register, complete,
  kill, land, TaskRuntimeFile,
}
use rusty_kimi.Tasks.Truth.{Step, registers, completes, kills, lands, run}

abbrev spec_of : String → TaskSpec
spec_of id = record {
  id = id;
  description = "build";
  command = "cargo build";
  shell_path = "/bin/sh";
  cwd = "/work";
  timeout_s = pos 60;
  child_pid = some 100;
}

abbrev two_tasks : List (Step ℕ)
two_tasks =
    registers 1 (spec_of "bash-1")
    ∷ lands 0 written true
    ∷ registers 2 (spec_of "bash-2")
    ∷ completes 3 "bash-1" completed (some (pos 0))
    ∷ lands 1 written true
    ∷ kills 4 5 "bash-2"
    ∷ []

two_tasks_events : (run two_tasks new).events ≡ ("bash-1", completed) ∷ []
unfolding run new register complete kill lookup insert land
two_tasks_events = refl

two_tasks_signals : (run two_tasks new).signals ≡ "bash-2" ∷ []
unfolding run new register complete kill lookup insert land
two_tasks_signals = refl

no_second_kill : (kill 6 7 "bash-2" (run two_tasks new)).1 ≡ some already_terminal
unfolding run new register complete kill lookup insert land
no_second_kill = refl

-- The file of the first task after it was completed.
abbrev ended_file : TaskRuntimeFile ℕ
ended_file = record {
  status = "completed";
  child_pid = some 100;
  exit_code = some (pos 0);
  started_at = 1;
  finished_at = some 3;
  interrupted = false;
  timed_out = false;
}

-- A kill that writes its file only after the task has been completed and its file written.
abbrev overtaken : List (Step ℕ)
overtaken =
    registers 1 (spec_of "bash-1")
    ∷ lands 0 written true
    ∷ kills 2 3 "bash-1"
    ∷ completes 4 "bash-1" completed (some (pos 0))
    ∷ lands 1 written true
    ∷ lands 0 written true
    ∷ []

abbrev status_in : Option (TaskEntry ℕ) → Option TaskStatus
status_in none = none
status_in (some e) = some e.status

abbrev status_on_disk : Option (Option (TaskRuntimeFile ℕ)) → Option String
status_on_disk (some (some f)) = some f.status
status_on_disk _ = none

-- The task ends as completed in the registry, and as killed on disk.
overtaken_status :
    (status_in (lookup "bash-1" (run overtaken new).tasks) ≡ some completed)
    × (status_on_disk (lookup "bash-1" (run overtaken new).runtime_files) ≡ some "killed")
unfolding run new register complete kill lookup insert land
overtaken_status = (refl, refl)
