-- ===== src/Lib.antt =====
-- containerd-shim-systemd-v1: a containerd shim that runs each container, and each exec in it, as a
-- transient systemd unit. systemd reports the exits; the shim merges what it observes into its
-- processes and publishes the events that containerd is to see.
--
-- The parts, and how they interact. A process (process.go) has a phase (phase.go) and a state
-- (state.go); an observation of its unit is merged by `applyState`, which moves the phase when the
-- process ends. Events go through the process's outbox (events.go), which holds back what
-- containerd cannot make sense of yet. The event reactor (unitevents.go) decodes systemd's signals
-- (unitsignals.go), keeps the exits that they tell of with the process, and puts the unit into a
-- work queue (unitworkqueue.go), whose workers reconcile one unit at a time and retry with a
-- backoff. The reactor finds a process through the managers of process.go by the interface
-- `processLookup`. The requests of containerd (create.go, start.go, delete.go, wait.go, state.go,
-- manager.go, pty.go) find it there too, by way of an adapter where they are of version 2
-- (service_v2.go), and start, signal and stop its unit; the shim holds a reference to a unit
-- (unitref.go) so that systemd keeps its exit. A process with a terminal has a second unit, whose
-- handler (pty.c) owns the terminal and resizes it on request (pty.go). The program (main.go,
-- service.go) installs the shim, opens it, and has commands that systemd runs in its units.
--
-- The files:
--   Phase        phase.go: `procPhase`, `phaseTransitions`, `canBecome`.
--   State        state.go: `pState` with `Reset`, `Exited`, `Started`, `CopyTo`; State/Time: the times;
--                State/Status: `exitStatusFor`, `toStatus`; State/Unit: `getUnitState` and
--                `loadExitFromUnit`; State/Merge: what `CopyTo` keeps.
--   Outbox       events.go: `eventOutbox`; Outbox/Order and Outbox/Held are about the order of what is
--                published, and about what is held; Outbox/Count counts events; Outbox/Channel:
--                `Service.send`, `Forward` and the channel between them.
--   WorkQueue    unitworkqueue.go: `unitWorkQueue`; WorkQueue/Backoff: `backoff`; WorkQueue/Invariant
--                has the step relation; WorkQueue/Progress, Turns and Retries are about runs of it.
--   Process      process.go: the fields that `p.mu` guards and the methods that hold it;
--                Process/Lifecycle has the step relation, Process/Exit and Process/Observe are about
--                runs of it.
--   Signals      unitsignals.go, and `unitEventIsExit` of unitevents.go.
--   Outside      what the shim calls: systemd, runc, files, the clock, the queue of events.
--   Task         process.go and state.go: init and exec processes, `SetState`, `LoadState`,
--                `LoadExitState`; Task/Once and Task/Acts follow the exit events of an exec,
--                Task/Container and Task/ContainerActs those of a container; Task/Calls is about the calls
--                of a load.
--   Wait         wait.go: `waitForExit`.
--   Teardown     unitref.go, delete.go: `releaseUnit`, `startTransientUnit`, the `Delete` methods,
--                `finishStart`, `finishDelete`; Teardown/Released is about the unit's reference.
--   Startup      start.go: `execProcess.Start`, `abandonStartedUnit`; Startup/Container: start.go and
--                create.go, `initProcess.Start`, `restore`, `startUnit`; Startup/Raced,
--                Startup/Abandoned and Startup/Container/Alive are about them.
--   Reactor      unitevents.go over an interface `ProcessLookup` with laws; Reactor/Loop:
--                `runEventReactor`; Reactor/Signal, Sweep and Redialed are about signals, resyncs and
--                connections that are dialed again.
--   Registry     process.go: `processManager` and `unitManager`; Registry/Instance fills the interface.
--   Requests     delete.go, create.go, wait.go, state.go: `Service.Delete`, `Exec`, `Wait`, `State`;
--                Requests/Tracking and Requests/Dropped are about what they leave; Requests/Start: start.go,
--                `Service.Start`; Requests/Control: manager.go, process.go and pty.go, the handlers of
--                the other requests with `Kill`, `Checkpoint`, `Pids` and `Update`; Requests/Signalled
--                is about `Kill`.
--   Create       create.go: `Service.Create`, `initProcess.Create`; Create/Undone is about a create that
--                fails; Create/Helper: `createCmd`, `workloadState`; Create/Handoff and Create/Ended
--                are about the notifications of `createCmd` and the state file that it leaves.
--   Pty          pty.go: Pty/Wire the requests and answers, Pty/Client `ttyControlClient`, Pty/Unit
--                `makePty` and `ResizePTY`, Pty/Request `Service.ResizePty`; pty.c: Pty/Handler, the
--                requests to the handler. Pty/RoundTrip, Stream, Exchange and Served are about the two
--                ends and both together.
--   Adapter      service_v2.go: `taskV2Adapter`; Adapter/Messages has the messages of the two versions.
--   Launch       create.go, start.go, process.go, pty.go: Launch/Options the options of a container,
--                Launch/Properties the command lines and unit properties, Launch/Setup what `Create` and
--                `Exec` fill in; Launch/Mounted is about the mounts of a container.
--   Boot         Boot/Install: service.go, `install`, `uninstall`; Boot/Open: manager.go, `New`, `Close`;
--                Boot/Commands: main.go, runtime_info.go, mount.go, log.go. Boot/Installed and
--                Boot/Deleted are about the installation and the delete command.
--   Examples     runs at concrete inputs.
--
-- How the code corresponds. A method that holds a lock is one function on the guarded state, and a
-- run of several goroutines is a sequence of such steps, in any order. A function that calls
-- systemd, runc, the file system or the clock takes a record `Outside` of operations on a world,
-- and returns the world after them; nothing is assumed of the answers. Logging, spans and metrics
-- are left out. A time is a number of nanoseconds from 2 ^ 63 microseconds before the epoch on, so
-- that Go's zero time has one. A `time.Duration` is kept in 64 bits, two's complement, and so is
-- the shift in `backoff`; an exit status and a process id are 32 bits wide, and an int32 of D-Bus
-- stands as its 32 bits. A condition variable's wake-up is no step of its own: a wait is a state in
-- which `Get` has no answer.
--
-- What other goroutines do while a request waits is an argument of it: `wait_for_exit` takes what
-- each wake-up sees after its first look, and a start takes what is done to the process while its
-- unit starts. The calls of systemd and runc are logged with the shim's state, so that a reference
-- to a unit can be followed; the log keeps whether a release worked, which the code itself does not look
-- at, since a reference whose release failed is still held by systemd. `createRestore` and `execProcess.Create`, which write files, are single
-- operations of the outside world; their command lines are in Launch. A process's terminal stands for
-- `opts.Terminal` too, which nothing sets. A deleted container's execs leave the managers with
-- it, marked, and are kept apart, as the starts that go on still have them. The unit manager of the code
-- holds pointers; here it holds names of processes, and a unit is found while its process is in its
-- manager: the moments in a delete when the process has left its manager and its unit has not are within
-- one step of the model.
--
-- The signals that come while the reactor has no connection are lost in the model too: a run of the
-- reactor is a list of attempts to connect, each with the moments of signals, workers, timers and
-- requests in it. The terminal's client and handler are two ends of one stream of bytes; the client of
-- the model reads what the handler has answered, in pieces of any length. The `sscanf` of the handler
-- stores a number that an int does not hold as a parameter of the model has it, since C leaves that
-- undefined. A container's client is found by its unit.
--
-- Fuel. `flush` passes over the held events until a pass sends nothing; it gets one pass more than
-- there are held events, and the result keeps whether they were enough. Outbox/Held
-- shows that they are, and that more would change nothing. The loop of
-- `handlePid` has its ten retries. The loop of `initProcess.Start` for the process id takes a bound
-- and is `blocked` past it, as the loop itself has none. `read_string` may read once for each byte of
-- its limit, and Pty/Exchange shows that more makes no difference.
--
-- Not modelled: the cgroup that the create helper joins, and the barrier's socket (create.go); the
-- files of an exec, and the reading of a pid file until its time is up; tracing and metrics, which
-- change nothing that is read; the dialling of the buses and of containerd; the flags, signals and the ttrpc server of main.go and service.go; the
-- rest of pty.c, which copies between descriptors; the benchmark under contrib, and the generated code
-- of options.
mod Prelude
pub mod Phase
pub mod State
pub mod Outbox
pub mod WorkQueue
pub mod Process
pub mod Signals
pub mod Outside
pub mod Task
pub mod Wait
pub mod Teardown
pub mod Startup
pub mod Reactor
pub mod Registry
pub mod Requests
pub mod Create
pub mod Examples
pub mod Pty
pub mod Adapter
pub mod Launch
pub mod Boot
