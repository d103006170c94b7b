-- ===== src/Lib.antt =====
-- A model of herd-wake, the daemon that starts development servers on demand and stops them when
-- they are idle.
--
-- The parts and how they interact:
--   * internal/process/supervisor.go keeps one process per project. `Process.Supervisor.Types` is
--     its state; `Start`, `Stop` and `Exit` beside it are its critical sections, one function each,
--     which return the new state and what the section does besides (`Effect`); `Backoff` is the
--     pause after a failed start. `Process.System` runs those sections with the goroutines that the
--     supervisor starts: callers, readiness probes, exit handlers, stops and output pumps. A list of
--     events is an interleaving.
--   * internal/process/ring.go keeps the last lines of output: `Process.Ring`.
--   * internal/idle/tracker.go counts what is going on in a project, and holds the gate of a stop:
--     `Idle.Tracker` has its operations one by one. `Idle.Handshake` takes them apart and
--     interleaves them with the request handlers of internal/proxy/ondemand.go: each load of a
--     counter, of the gate or of the lease is an action of its own, while the two writes that end
--     a request, and the two that end a gate, are one.
--   * internal/proxy/ondemand.go also holds requests while a project starts: `Proxy.Hold` interleaves
--     any number of handlers in `holdAndForward`.
--   * internal/idle/monitor.go decides when a project is stopped: `Idle.Monitor`.
--   * internal/daemon/budget.go limits how many projects run, and stops the least recently active
--     one to make room: `Daemon.Budget`, over the supervisor's states and the trackers.
--   * internal/daemon/wildcard.go makes a project for a worktree that is asked for first:
--     `Daemon.Wildcard` finds its port and registers it in the table of live projects, and
--     `Daemon.Wildcard.Resolve` is how the requests for one label share a resolution.
--   * internal/daemon/daemon.go has the listeners and what puts a project on one: `Daemon.Listeners`,
--     with the tables of internal/daemon/router.go. internal/daemon/reload.go brings the running set
--     in line with a configuration: `Daemon.Reload`, with the comparison in `Daemon.Reload.Diff`.
--   * internal/config is the configuration. `Config.Project` is the record of one project, and
--     `Config.Defaults` fills what is left out; `Config.Validate`, `Config.ValidateDiscovery` and
--     `Config.ValidateConfig` are the checks of a project, of a discovery entry and of the whole, one
--     function for each group of fields, which list their errors as the source does. The texts of
--     messages are values of `Complaint`. `Config.Discovery` has the entries, and the hosts and
--     projects of wildcard entries. `Config.EnvFiles` resolves the paths of env files.
--     `Config.Equivalent` compares two projects, and two entries.
--   * internal/discovery finds worktrees and registers projects for them. `Discovery.Scan` has the
--     rules for a directory and `Discovery.PortCommand` the port that a command prints;
--     `Discovery.Build` makes the project of one candidate with its ports, `Discovery.Entry` and
--     `Discovery.WildcardSync` bring a proxy-mode and a wildcard entry up to date, with the commands
--     of Herd in `Discovery.HerdActions`, and `Discovery.Sync` goes through all entries;
--     `Discovery.Remove` takes one project away.
--   * internal/herd/herd.go reads what Herd's commands print and its site files: `Herd` and
--     `Herd.Links`.
--   * internal/envfile/envfile.go reads env files and puts together a child's environment:
--     `Envfile.Parse`, `Envfile.Load` and `Envfile.ChildEnv`. `Envfile.Secrets` has what is shown of
--     it to a user.
--
-- Times are nanoseconds as native numbers, with 0 for the zero time; the readings of the clock in
-- one critical section are one number. What the operating system answers is an argument of the
-- section that asks, or a record of functions (`Platform` of Config.Hostname, `Machine` of
-- Envfile.ChildEnv, `Disk` of Discovery.Scan, `Web` of Herd, `Cli` of Discovery.Build), as are the
-- answers of net/url, net, encoding/json, path and path/filepath. Strings are lists of
-- bytes, a Go `int` is an integer without a bound, a map is an association list (and `env` is optional,
-- since a comparison tells nil from empty). Log lines are left out. The loop of `tryReserveLocked`
-- has the bound of the source (`eviction_attempts`). Fuel is used in three places: `replace_name` has
-- the length of its template, which each step shortens; the digits of a port have five steps and
-- those of the number of an entry six. A loop over a range of ports has a step for each port; all
-- other loops are structural.
--
-- Not modelled: the start of the daemon, dynamic projects that are made while a reload runs, the
-- decoding and the encoding of YAML, the processes of the commands, the control socket, the command
-- line and the reverse proxy itself, which are mostly input and output around the parts above.
mod Prelude
pub mod Config
pub mod Envfile
pub mod Process
pub mod Idle
pub mod Discovery
pub mod Herd
pub mod Daemon
pub mod Proxy
