-- ===== src/Lib.antt =====
-- The GPU dead node detector: a daemon for each node of a Kubernetes cluster that checks the GPUs
-- of the node at several levels, keeps a health state for each of them, and isolates the node when
-- a device has failed.
--
-- How the parts interact. The scheduler runs three detectors in turn, each over the device
-- interface. A detector answers with one result for each device; the health manager makes an event
-- of it and moves the device's state; when a device becomes unhealthy, the scheduler lets the
-- self-healer try, hands the transition to the executor, which is the node operator over the
-- Kubernetes client, and reports the completed isolation back to the manager. Every result updates
-- the metrics. All paths below are under src/rust/gdnd.
--
--   Main         gdnd/src/main.rs and cli.rs: the conversions of the configuration, the assembly
--                of the scheduler, and the program from the arguments of the command line on.
--                `main` itself is in Program, the arguments in CommandLine, and the log, the signals
--                and the metrics server, which run beside the loop, in Serving; EndToEnd and
--                KernelLog follow a failure through all the parts, Containment compares the manager
--                with the cluster, Persistent follows a device that goes on failing, Recovered one
--                that passes its checks again, and PcieBranch says what the L3 passes do to either.
--   Config       gdnd/src/config.rs: the configuration, its defaults and `validate`.
--   Device       gdnd-core/src/device/interface.rs: `DeviceInterface` is a record of operations
--                over a world W, `Device.System` the operating system's commands and files. Below
--                it, the implementations: Mock (mock.rs), Nvidia over Nvml (nvidia.rs), Ascend with
--                AscendCode, NpuSmi and AscendLogs (ascend.rs), Process for what the two drivers
--                share, and Select (mod.rs), which chooses one.
--   Detection    gdnd-core/src/detection/mod.rs, with l1_passive.rs (Passive), l2_active.rs
--                (Active) and l3_pcie.rs (Pcie); `detect` and `detect_all` keep their names. Keeps
--                says what they leave of the world.
--   Record       gdnd-core/src/state_machine.rs: the states, the record of a device, the events and
--                the reports, which Health passes on.
--   Health       gdnd-core/src/state_machine.rs: `GpuHealthManager`, whose map is an association
--                list. The `match` of `transition` is `dispatch`, and its larger branches are
--                `fatal`, `fail_again` and `recover`. Below it, Invariant says when a manager is
--                valid, Status has the automaton that it implements, Traces sequences of events,
--                Diagram the edges of the state diagram, Counting, Recovery and Checks what
--                follows for a device; Queries and Overview are about the readers.
--   Healing      gdnd-core/src/healing.rs: `SelfHealer`, its commands run in a system.
--   Kube         gdnd-k8s/src/client.rs (Client) and node_ops.rs (Operator). The API server is the
--                record `Api`; what a merge patch does to a node is the record of laws `Server`.
--   Metrics      gdnd-core/src/metrics.rs: the metrics, their labels and the updates, as values;
--                Labels compares the two, Gauges has the value that was set last for a status.
--   Scheduler    gdnd-core/src/scheduler.rs: `process_result` is `judge`, then `isolate`;
--                the loop of `run` is a function of the events in the order in which they are
--                taken. Below it, Isolation, Outcome, Handled and Shown are about one result, Passes,
--                Masking and Condemned about a pass, Keeps, Refines and Settled about the loop. Rounds and
--                Forecast say what passes and the loop make of the status of one device, Reporting
--                what it must show for that, and Failing and Restoring what follows for a device
--                that fails, or passes.
--   Common       lists, dictionaries, texts, parsing, and effects: an effect is a function of the
--                world that returns an answer or an error and the world that it leaves.
--   Tests        concrete devices, a cluster and a scheduler; Conformance has the unit tests of the
--                source files as Booleans over the model.
--
-- Numbers and bounds. Numbers are natural; a u32 counter that the program increments wraps at
-- 2 ^ 32 in the model, and the invariant of a manager says that it does not come to that. The
-- thresholds are assumed to fit a u32, as their type says. The count of killed processes, an i32, has
-- no bound. Durations are nanoseconds, and a bandwidth is in hundredths of a GB/s. Loops are over
-- lists, and that of `run` goes on as long as its events do: the answer of `run` says whether they
-- have ended it. Only the printing of a number n runs on fuel, n + 1, which is more than its digits.
--
-- What is not modelled. The tickers of `run` and the scheduling of tasks: the sequence of events
-- is an argument. Lock waits: each step of the scheduler takes the lock for itself, and its loop
-- runs one handler at a time. The text of logs. The TCP listener of the metrics server, whose tasks
-- are taken in the order of their connections, the delivery of signals and the parsing of arguments,
-- which other crates do. The active check programs, in CUDA and C++, are processes. The API server,
-- the operating system, NVML, the engine of regular expressions, the reader of YAML and the
-- Prometheus registry are parameters, and so are the two expressions on f64 of the Ascend driver.
-- An upper case is that of ASCII, and a path is printed as it is.
pub mod Common
pub mod Config
pub mod Detection
pub mod Device
pub mod Healing
pub mod Health
pub mod Kube
pub mod Main
pub mod Metrics
pub mod Record
pub mod Scheduler
pub mod Tests
