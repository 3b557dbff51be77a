-- ===== src/Tasks/Truth.antt =====
-- Steps of overlapping calls, and what it is for the files to tell the truth.
use rusty_kimi.Common.{
  ℕ, ◌≡◌, refl, sym, subst, String, Bool, true, List, [], ◌∷◌, Option, none, some, All, All-append,
  Bool-cases, inl, inr,
}
use rusty_kimi.Common.Eq.{string_eq, ◌=?◌, =?_self}
use rusty_kimi.Common.Dict.{lookup, insert, lookup-insert}
use rusty_kimi.Common.Int.{ℤ}
use rusty_kimi.Tasks.{
  TaskSpec, TaskStatus, as_str, is_terminal, is_killed, is_timed_out, TaskEntry, TaskRuntimeFile,
  Flight, Write, BackgroundTaskManager, register, released, land, complete, kill,
}

-- A call's change of the registry, or the writing of its files by one of the calls in flight.
pub data Step (F : Type 0) : Type 0 where
  registers : F → TaskSpec → Step F
  completes : F → String → TaskStatus → Option ℤ → Step F
  kills : F → F → String → Step F
  lands : ℕ → Write → Bool → Step F

module _ {F : Type 0} where
  unfoldable pub step : Step F → BackgroundTaskManager F → BackgroundTaskManager F
  step (registers now spec) m = register now spec m
  step (completes now id status exit_code) m = complete now id status exit_code m
  step (kills now later id) m = (kill now later id m).0
  step (lands n write made) m = land n write made m

  unfoldable pub run : List (Step F) → BackgroundTaskManager F → BackgroundTaskManager F
  unfolding step
  run [] m = m
  run (s ∷ ss) m = run ss (step s m)

  -- A task is registered under an id that is not in use, and completed with a status that ends it.
  abbrev pub Proper : Step F → BackgroundTaskManager F → Type 0
  Proper (registers now spec) m = lookup spec.id m.tasks ≡ none
  Proper (completes now id status exit_code) m = is_terminal status ≡ true
  Proper _ m = Unit

  abbrev pub AllProper : List (Step F) → BackgroundTaskManager F → Type 0
  AllProper [] m = Unit
  AllProper (s ∷ ss) m = Proper s m × AllProper ss (step s m)

  -- The file has one status, with the flags that belong to it, and the task's process and start; if
  -- the status ends the task, the task has ended.
  pub record Told (e : TaskEntry F) (f : TaskRuntimeFile F) : Type 0 where
    pub told : TaskStatus
    pub status : f.status ≡ as_str told
    pub interrupted : f.interrupted ≡ is_killed told
    pub timed_out : f.timed_out ≡ is_timed_out told
    pub child_pid : f.child_pid ≡ e.spec.child_pid
    pub started : f.started_at ≡ e.created_at
    pub ended : is_terminal told ≡ true → is_terminal e.status ≡ true

  abbrev pub TrueOf : TaskRuntimeFile F → Option (TaskEntry F) → Type 0
  TrueOf f none = ⊥
  TrueOf f (some e) = Told e f

  abbrev pub FileTrue : Option (Option (TaskRuntimeFile F)) → Option (TaskEntry F) → Type 0
  FileTrue none e = Unit
  FileTrue (some none) e = Unit
  FileTrue (some (some f)) e = TrueOf f e

  abbrev pub FlightTrue : BackgroundTaskManager F → Flight F → Type 0
  FlightTrue m x = TrueOf x.file (lookup x.task m.tasks)

  pub record Truthful (m : BackgroundTaskManager F) : Type 0 where
    pub files : (k : String) → FileTrue (lookup k m.runtime_files) (lookup k m.tasks)
    pub flights : All (FlightTrue m) m.in_flight

  -- What a task's entry may become.
  pub record Grows (e e' : TaskEntry F) : Type 0 where
    pub child_pid : e'.spec.child_pid ≡ e.spec.child_pid
    pub created_at : e'.created_at ≡ e.created_at
    pub ended : is_terminal e.status ≡ true → is_terminal e'.status ≡ true

  Told-Grows : (e e' : TaskEntry F) (f : TaskRuntimeFile F) → Grows e e' → Told e f → Told e' f
  Told-Grows e e' f g t = record {
    told = t.told;
    status = t.status;
    interrupted = t.interrupted;
    timed_out = t.timed_out;
    child_pid = cc (t.child_pid, g.child_pid);
    started = cc (t.started, g.created_at);
    ended = λ h. g.ended (t.ended h);
  }

  -- The entry that a change replaces, if there is one, grows.
  abbrev pub From : Option (TaskEntry F) → TaskEntry F → Type 0
  From none e' = Unit
  From (some e) e' = Grows e e'

  TrueOf-From :
      (f : TaskRuntimeFile F) (o : Option (TaskEntry F)) (e' : TaskEntry F)
      → From o e'
      → TrueOf f o
      → TrueOf f (some e')
  TrueOf-From f none e' g t = absurd t
  TrueOf-From f (some e) e' g t = Told-Grows e e' f g t

  FileTrue-From :
      (f : Option (Option (TaskRuntimeFile F))) (o : Option (TaskEntry F)) (e' : TaskEntry F)
      → From o e'
      → FileTrue f o
      → FileTrue f (some e')
  FileTrue-From none o e' g t = tt
  FileTrue-From (some none) o e' g t = tt
  FileTrue-From (some (some f)) o e' g t = TrueOf-From f o e' g t

  -- Any fact of a task's entry that growth keeps is kept by the change.
  insert-keeps :
      (P : Option (TaskEntry F) → Type 0) (id k : String) (e' : TaskEntry F)
      (m : BackgroundTaskManager F)
      → (P (lookup id m.tasks) → P (some e'))
      → P (lookup k m.tasks)
      → P (lookup k (insert id e' m.tasks))
  insert-keeps P id k e' m grows h =
      rw (lookup-insert id k e' m.tasks) (elim (Bool-cases (id =? k)) [
        | inl same ↦
            let at : k ≡ id = sym ((string_eq.beq_iff id k).0 same) in
            rw (same) (grows (subst (λ i. P (lookup i m.tasks)) at h))
        | inr other ↦ rw (other) h
      ])

  flights-keep :
      (id : String) (e' : TaskEntry F) (m m' : BackgroundTaskManager F) (xs : List (Flight F))
      → m'.tasks ≡ insert id e' m.tasks
      → From (lookup id m.tasks) e'
      → All (FlightTrue m) xs
      → All (FlightTrue m') xs
  flights-keep id e' m m' [] same g h = tt
  flights-keep id e' m m' (x ∷ xs) same g (h, hs) = (
    subst (λ t. TrueOf x.file (lookup x.task t)) (sym same)
        (insert-keeps (TrueOf x.file) id x.task e' m (TrueOf-From x.file (lookup id m.tasks) e' g)
          h),
    flights-keep id e' m m' xs same g hs,
  )

  newest-TrueOf :
      (e' : TaskEntry F) (x : Flight F) (m : BackgroundTaskManager F)
      → Told e' x.file
      → TrueOf x.file (lookup x.task (insert x.task e' m.tasks))
  newest-TrueOf e' x m told = rw (lookup-insert x.task x.task e' m.tasks) (rw (=?_self x.task) told)

  pub released-Truthful :
      (e' : TaskEntry F) (x : Flight F) (m : BackgroundTaskManager F)
      → From (lookup x.task m.tasks) e'
      → Told e' x.file
      → Truthful m
      → Truthful (released e' x m)
  unfolding released
  released-Truthful e' x m g told t = record {
    files = λ k.
        insert-keeps (FileTrue (lookup k m.runtime_files)) x.task k e' m
          (FileTrue-From (lookup k m.runtime_files) (lookup x.task m.tasks) e' g) (t.files k);
    flights =
        All-append (FlightTrue (released e' x m)) m.in_flight (x ∷ [])
          (flights-keep x.task e' m (released e' x m) m.in_flight refl g t.flights)
          (newest-TrueOf e' x m told, tt);
  }
