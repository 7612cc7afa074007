-- ===== src/Lib.antt =====
-- The mackerel-agent: a daemon that collects metrics, checks and metadata of a host and posts them
-- to a server.
--
-- The program's parts, and the files that model them:
--   config/config.go: the configuration. Config.antt has the records; Config/Platform the cloud
--     platform, Config/Commands `CommandConfig.parse` and the environment, Config/Plugins the
--     builders of plugins and `setEachPlugins`, Config/Load `LoadConfig`, `loadConfigFile`,
--     `includeConfigFile` and `ListCustomIdentifiers`, Config/HostId the storage of the host id in a
--     file, Config/Storage the interface `HostIDStorage`.
--   main.go: Main.antt, how the command line is laid over the configuration (`resolveConfig`), and
--     the pattern of a role's name. Main/Commands has `start` and the commands of commands.go,
--     Main/Init the command `init` of do_init.go.
--   main.go and command/command.go, how the agent stops: Shutdown.antt, `signalHandler`, the
--     goroutine of `loop` that passes the terminate instruction on, and the posting loop.
--   metrics/metrics.go, metrics/plugin.go, metrics/interface.go, metrics/linux/disk.go and
--     util/sanitize.go: Metrics.antt, Metrics/Plugin, Metrics/Interface and Metrics/Disk, how values
--     are merged, what the output of a plugin is taken for, and the growth of counters.
--   metrics/linux/cpuusage.go, metrics/linux/memory.go, metrics/filesystem.go, metrics/agent.go:
--     Metrics/Linux. metrics/darwin/cpuusage.go, metrics/freebsd/cpuusage.go:
--     Metrics/Bsd; metrics/freebsd/memory.go, metrics/netbsd/memory.go: Metrics/Bsd/Top.
--     util/filesystem.go, the parser of df: Util/Filesystem.
--   agent/generator.go, agent/agent.go: Agent.antt (`generateValues`, `CollectMetrics`) and
--     Agent/Watch (`Watch`).
--   checks/checker.go: Checks.antt. mackerel/api.go, mackerel/check.go: Mackerel.antt.
--   metadata/metadata.go: Metadata.antt, the generator of a metadata plugin and its cache.
--   command/command.go: Command/Host (`prepareHost`), Command/App (`collectHostParam`, `Prepare`,
--     `Run`), Command/Enqueue (`enqueueLoop`), Command/Post (`loop`), Command/Checker (`runChecker`),
--     Command/Reports (the batches of `runCheckersLoop`, and `reportCheckMonitors`),
--     Command/Reports/Loop (its channels) and Command/Reports/Posted (its rounds).
--     command/metadata.go: Command/Metadata. command/command_linux.go, and `NewAgent` and `runOncePayload` of
--     command/command.go: Command/Once.
--   spec/spec.go: Spec.antt (`Collect`). spec/linux/cpu.go: Spec/Cpu; spec/linux/memory.go:
--     Spec/Memory; spec/linux/kernel.go: Spec/Kernel; spec/linux/block_device.go: Spec/BlockDevice;
--     spec/net_interface.go: Spec/Interface; spec/linux/interface.go: Spec/Interface/Ip;
--     spec/cloud.go: Spec/Cloud; spec/isec2_linux.go: Spec/Cloud/Ec2; spec/darwin and spec/freebsd:
--     Spec/Bsd.
--   cmdutil/cmdutil.go: Cmdutil.antt. pidfile/pidfile.go: Pidfile.antt.
--   supervisor/supervisor.go: Supervisor.antt.
--   Prelude holds the shared lists, maps, bags, texts, results and integers, the printing of numbers,
--   a matcher for the regular expressions of the sources (Prelude/Regex), the orders of a `range`
--   (Prelude/Orders) and the interface of the retry library (Prelude/Retrier); Tests the tests.
--
-- How they interact: the supervisor runs the agent as a child. The agent resolves its
-- configuration, finds or registers its host, and starts one goroutine for each checker, for each
-- metadata plugin and for the ticker. `enqueueLoop` turns each result of the ticker's workers into
-- an entry of the queue that `loop` posts from; a failed post goes back to the queue through a
-- goroutine of its own. Reports of checkers are drained into batches, metadata into one result for
-- each namespace. A signal goes through the handler and the fan-out to the posting loop, the
-- checkers loop and the metadata loop, in that order.
--
-- How the code is modelled: a goroutine is a step function on a record of its variables, where an
-- event names what the scheduler, the clock or the server does next; a theorem about every list of
-- events is one about every schedule. A map is an association list in the order in which a `range`
-- visits it, and a theorem for every list is one for every order; where the code builds the map that
-- it visits, the order is a parameter, a permutation (Prelude/Orders). Numbers are native; an int64 and a
-- uint64 wrap around as the code's do. A float64, a compiled regular expression of the configuration
-- and a JSON value are types of the model's parameters, with the functions of the libraries on them
-- as fields of a record. An answer of the server may depend on all the calls before it.
--
-- Loops are recursions on the list of what they visit, or of what happens. `retry.Retry` is a
-- parameter that stops after its number of tries. Two functions count down a bound: the printing of
-- a number, by the number plus one, which is more than it has digits, and the printing of a uint32
-- in hexadecimal, by its eight digits. A repetition in a regular expression is bounded by the length
-- of the text, since each round takes a character. A line that bufio.Scanner reads is taken to be
-- shorter than its buffer of 64 KB.
--
-- What is not modelled: input and output themselves, what is read with a library and only renamed
-- (the load average, and the memory of Darwin), the code for Windows, and packaging. The text of log
-- messages and of errors is left out.
pub mod Prelude
pub mod Config
pub mod Metrics
pub mod Checks
pub mod Mackerel
pub mod Metadata
pub mod Agent
pub mod Command
pub mod Main
pub mod Pidfile
pub mod Util
pub mod Spec
pub mod Shutdown
pub mod Cmdutil
pub mod Supervisor
pub mod Tests
