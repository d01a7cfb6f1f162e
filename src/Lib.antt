-- ===== src/Lib.antt =====
-- A verification library of RCM 2.0, the Windows controller of a Ray cluster (src/rcm). The services
-- of the package are modelled as the code is written; the operating system, the widgets and the
-- adapters are parameters.
--
-- The parts and their files:
--   Prelude             numbers, strings, lists, results and errors that all parts share.
--   Core                src/rcm/core.py: validated identifiers and nodes (Core/Text, Core/Types), and
--                       plans of dependent steps with the loop that orders them (Core/Plan).
--   Runtime             src/rcm/runtime.py: the coordinator that starts units in their order and shuts
--                       them down in reverse. Runtime/Defs has its state, Runtime/Ops its operations.
--   Ui/Scheduler        src/rcm/ui/scheduler.py: the bounded event queue with coalescing keys and the
--                       scheduler that drains it on the UI thread; Wakeup, Delivery and
--                       Fifo have the proofs, Threads the interleavings.
--                       `consume` is known by its calls on the scheduler and its exceptions.
--   Ui/Geometry         src/rcm/ui/geometry.py: the size and the place of the window; Fit has the proofs.
--   Cluster             src/rcm/cluster.py: snapshots and their validation (Types), the policy that
--                       finds a cluster idle (Policy), the diagnosis (Service), and the guard that
--                       hands out the one maintenance lease (Guard).
--   Reconfiguration     src/rcm/reconfiguration.py: the change of a cluster to its next topology.
--                       Types, Journal (the checkpoints, the claim and the epoch), Control (one step of
--                       a phase), Phases, Rollback and Run have the code. The proofs are in Frame,
--                       Framed and FramedRun (what every primitive keeps), Claims, Steps, Available,
--                       Success, Completed, Reached, Reported, Outcome, Recorded
--                       and Again.
--   Config              src/rcm/config/store.py: the durable configuration. Formats has the records and
--                       journals with their codecs, Disk the filesystem with its synced part and its
--                       faults, Store the recovery, `load` and `save`, Store/Rollback has
--                       `rollback_previous`. Laws has what the store relies on. The proofs are in Codec
--                       and Decoding (the formats), Safe and Safe/Steps (actions that any step may
--                       interrupt), and Store/Stages, Recovery, Commit, Atomic, Saving, Crash, Saved
--                       and Restored.
--   Cleanup             src/rcm/cleanup.py: the local process cleanup. Types has identities, rules and the
--                       policy, Facade the scan and the execution of candidates. The proofs are in
--                       Force (the order of the calls of the backend), Growth (the log only
--                       grows), Rules and Evidence (the candidates of a scan), History and Once.
--   Tests               concrete inputs.
--
-- How the code is translated. A method that changes its object is a function from the state to the
-- state; a Python exception is `err` of a `Result`, with the constructor of `Exn` that names its class.
-- The checks of a constructor that concern the types of its arguments are the types here. A natural
-- number stands for a time; the coordinator of the components only hands times on, and what its
-- floating-point sums and differences round to is its host's, while the ages that the cleanup and the
-- policy compare with their limits are taken as exact differences. A set is a list of which only
-- membership is read. The identity of a lease is its address in the store of the guard. The calls that
-- the coordinator makes of its components are
-- recorded as events, and the component's answer may depend on all events before. In the same way
-- the reconfigurator records its saves and its commands, and the adapter's answers and the
-- cancellation depend on them; the exceptions that carry a checkpoint are ways in which an action
-- ends.
--
-- The facade of the cleanup records its calls with their answers; the identity of a candidate is the
-- number of the object.
--
-- The store of the configuration runs on a disk with six files and on what of them is synced. Each of
-- its steps counts, and an environment says which steps fail, raise in the hook or lose the power; after
-- a power loss each file is found as on the disk or as synced. Its schema, JSON and SHA-256 are the
-- interface `Format`, whose `Laws` say what the store relies on: decoding gives back what was encoded
-- within the size limit, for canonical values; the schema refuses a configuration or writes it as a
-- dictionary, from which it reads the normalised configuration (`config_to_dict` turns the slashes of
-- an executable path and then reads its own result), and it writes that one in the same way; what a
-- record and a journal add is within the limits. So a save returns the configuration that it was
-- given, and a load the normalised one.
-- The writers that take the lock exclude each other, and a directory is tidy if it has nothing but the
-- target and its backup, as a completed save leaves it.
--
-- Fuel. The loop `while pending` of `ordered_steps` has the number of steps as fuel, since each round
-- places at least one step; no other loop needs a bound, since each goes down a
-- list.
--
-- Not modelled: the 1.x application (ray_monitor.py and its helpers), the Tk widgets, the adapters and
-- the packaging scripts, which are input and output; the other services of src/rcm.
pub mod Prelude
pub mod Core
pub mod Runtime
pub mod Cluster
pub mod Reconfiguration
pub mod Config
pub mod Cleanup
pub mod Ui
mod Tests
