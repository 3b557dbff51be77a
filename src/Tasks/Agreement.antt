-- ===== src/Tasks/Agreement.antt =====
-- What the files on disk tell of a task is true of the registry, however calls overlap.
