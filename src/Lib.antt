-- ===== src/Lib.antt =====
-- oddk manages PostgreSQL instances in containers: it keeps their rows in SQLite, takes backups of
-- single instances and snapshots of the whole deployment on a schedule, ages the archives out
-- locally and offsite, checks health, and tells the operator when something changes. This library
-- models the logic of the daemon that decides about data: what is deleted, what runs, what a row
-- says after a crash, and what is announced.
--
-- Parts, and where they come from (paths from the root of the repository):
--   Retention        internal/operations/retention.go: retentionFloor, snapshotIsComplete,
--                    completePinCutoff, snapshotRetentionProtects.
--   Disk             localArchivePresent of the same file, and os.Remove, over a list of files.
--   Snapshots        internal/store/snapshot: rows of snapshot_history, List, Get, Delete and the
--                    two Clear…Location; Snapshots.Plan is types.go's Plan with RunsAtHour.
--   SnapshotCleanup  internal/operations/snapshot_cron_task.go: runLocalCleanup and
--                    removeLocalSnapshot, over the two stores above and the disk.
--   SnapshotMake     internal/operations/snapshot_make.go: MakeSnapshot, with decideCapture and
--                    stageAllInstances in SnapshotMake.Staging; SnapshotMake.Members is
--                    assertSnapshotMembers.
--   SnapshotApply    internal/operations/snapshot_apply.go: ExecuteSnapshotApply, with its
--                    loop over the instances and rebuildInstanceCluster of snapshot_rebuild.go in
--                    SnapshotApply.Rebuild. Snapshots.Schedule and
--                    Snapshots.Repoint are the store's part of it.
--   Recreate         internal/operations/cluster_recreate.go: applyClusterChange, used by
--                    rdbms_recreate.go; Recreate.Reconfigure is rdbms_reconfigure.go, Recreate.Docker
--                    RecreateContainer of internal/docker/client.go.
--   Checklist        internal/operations/checklist.go: collectSnapshots and snapshotCoverage.
--   SnapshotRemote   runRemoteCleanup of the same file, over the catalogue and the bucket.
--   Backups          internal/store/backup: rows of backup_history; the listings with the orphans
--                    that they drop, Backups.Copies the operations on one record, Backups.Repoint
--                    ReconcileLocalLocations.
--   BackupCleanup    internal/operations/cron_task.go: runLocalCleanup, over Backups and the disk.
--   BackupRemote     runRemoteCleanup of the same file, over Backups and the bucket.
--   S3Location       internal/operations/s3_location.go, and RelativeKey of
--                    internal/services/s3/client.go.
--   Bucket           FileExists and DeleteFile of the same client, over a set of keys, and
--                    remoteArchivePresent of internal/operations/retention.go.
--   Newest           the listings that SQL orders newest first.
--   Instances        internal/store/instances: the rows and their statuses.
--   Reconcile        internal/daemon/reconcile.go: the status pass at startup, from the container
--                    states that internal/docker/client.go reports.
--   Health           internal/store/health: the table of health records.
--   Notify           internal/services/health_notifications.go: thresholds, announcements, retries.
--   CronStore        internal/store/cron: the schedules of instances.
--   CronLogs         internal/store/cron: the log of runs.
--   CronReport       internal/operations/cron_notify.go, and the phases of cron_task.go's phase().
--   CronTask         internal/operations/cron_task.go: the phases of CronTaskOp.Execute.
--   CronSchedule     internal/daemon/cron_scheduler.go: one tick of the scheduler.
--   CronTracker      internal/daemon/cron_tasks.go: the queue that runs tasks one at a time.
--   Parameters       internal/store/parameters/sharedmem.go: the estimate of PostgreSQL's shared
--                    memory, and ValidateForContainer.
--   Executor         internal/operations/executor.go: the lock of write operations, the reads beside it,
--                    Close, Drain.
-- A tick of CronSchedule reads CronStore, CronLogs and Snapshots.Plan and puts names into
-- CronTracker. A task that CronTracker starts runs its phases (CronTask), writes its row
-- (CronLogs, CronReport) and ages archives out (SnapshotCleanup and SnapshotRemote, BackupCleanup
-- and BackupRemote), which ask Retention. At startup Reconcile rewrites the rows of Instances,
-- mark_interrupted_runs closes the snapshot's open rows of CronLogs, and Health closes its open
-- checks. A started task takes the lock of Executor. Notify reads what Health has recorded.
-- SnapshotMake reads Instances and appends to Snapshots, which Checklist audits; SnapshotApply
-- repairs Backups and Snapshots, pauses the schedules and settles the rows of Instances. Recreate
-- rewrites the row of one instance, and asks Parameters whether its group fits. Base holds the shared
-- names and lemmas.
--
-- How the code is rendered. An operation with a receiver takes and returns the state; a table is a
-- list of rows, and a statement that the database refuses is an argument of the operation. What
-- the file system refuses is a function of the path, and what the network answers one of the
-- channel and the attempt. Instants are seconds since the epoch on the natural numbers, and a
-- difference of instants that would be negative is cut off at 0, which no row lies before. The last
-- hour before `now` is 3,600 seconds.
-- AddDate(0, 0, -d) is d days of 86,400 seconds, as it is in UTC. Ids, hours, days and thresholds
-- are natural numbers. The scheduler's probabilities are percents, and a roll of its dice is one
-- too. The critical sections of the queue are single steps, in any order. filepath.Join's cleaning
-- of a path is left out. Log lines and the texts of messages are left out.
-- In Parameters an int64 is its two's complement, a number below 2 ^ 64, and an int that was read is
-- not negative.
-- Loops over lists are recursion on the list. The one bounded loop, the three attempts to send a
-- message, is recursion on the attempts that are left, whose number is the source's maxRetries.
--
-- Not modelled: containers, the transfer of archives, encryption, compression, the HTTP layer and
-- the command line, which are calls of other systems or glue; the making and restoring of single
-- backups, the creating, starting and deleting of instances, the preflight of an apply, the migrations, and the rows and expressions of parameter
-- groups.
pub mod Base
pub mod Disk
pub mod Retention
pub mod Instances
pub mod Reconcile
pub mod Health
pub mod Notify
pub mod Snapshots
pub mod SnapshotCleanup
pub mod CronTracker
pub mod CronStore
pub mod CronLogs
pub mod CronReport
pub mod CronSchedule
pub mod Executor
pub mod CronTask
pub mod S3Location
pub mod Bucket
pub mod SnapshotRemote
pub mod Newest
pub mod Backups
pub mod BackupCleanup
pub mod BackupRemote
pub mod Parameters
pub mod SnapshotMake
pub mod Checklist
pub mod SnapshotApply
pub mod Recreate
