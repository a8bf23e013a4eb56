-- ===== src/Lib.antt =====
-- ZFW, the firewall manager for ZimaOS: a model of the daemon's parts and of the compiler that turns
-- its rules into the script which the engine runs, and what holds of them.
--
-- The daemon keeps one rule set, rules.json. internal/rules reads it, lifts it to the current schema
-- and validates it; internal/compiler writes it as a bash script, and as documents for
-- iptables-restore; internal/config adds interfaces that bypass the chains, and internal/geo fetches
-- the addresses of countries and names their sets. internal/firewall keeps the older allowlist.conf,
-- which internal/rules turns into a first rule set, and runs the script, as root: every text of a rule
-- that reaches it matters. In front of the HTTP handlers stand internal/auth and the rate limiter.
-- The handlers save
-- a rule set, resolve the containers of internal/system that rules are bound to, compile it and run the
-- engine on it. Around them, internal/dockerwatch recompiles when containers start, internal/events and
-- internal/conntrack read what the kernel reports, internal/audit keeps a history of findings, and
-- internal/update looks for releases with a client that internal/httputil guards.
--
--   Common          numbers, lists, results; texts as bytes with Go's strings, strconv and bufio
--                   functions; files, and the idiom that replaces one
--   Rules.Model     internal/rules/rules.go: Source, Ports, Rule, RateLimit, Schedule, RuleSet
--   Rules.Checks    rules.go: isSafeContainerID, isSafeRuleID, SplitCountries, isAlpha, isHHMM
--   Rules.Validate  rules.go: Validate, validateRule and their parts; an error is a value (Rules.Errors)
--   Rules.Migrate   rules.go: migrate
--   Rules.Valid     the valid rule sets, stated without the code
--   Rules.Store     rules.go: NewID, Save, Load and writeAtomic on files
--   Rules.Starter   rules.go: Defaults; internal/rules/migrate.go: FromTiers, atoiList
--   Rules.Templates internal/rules/templates.go: the catalog of Templates
--   Config          internal/config/config.go: Load, parseIfaceList, isSafeIfaceName; geo.SetName
--   Compiler.Sort, Args, Zones, Lines, Outbound
--                   internal/compiler/compiler.go: the lines of one rule
--   Compiler.Script compiler.go: Compile and its emit functions
--   Compiler.Chains, Restore
--                   internal/compiler/compiler_restore.go: the six chains and the documents
--   Compiler.Agreement, Inert
--                   the script against the chains; the bytes of the lines
--   Firewall        internal/firewall/firewall.go: validate, SaveConfig, LoadConfig; in Engine, Apply,
--                   secureRootFile, Commit and Revert; in Live, New and Status
--   Geo             internal/geo/geo.go: the fingerprint, the index and the lookups; in Ipset, Ensure,
--                   fetch and renderIpset; in Fingerprint, what zoneFingerprint tells
--   Auth            internal/auth/auth.go: refreshKeys, currentKeys, Verify, Middleware, bearerToken
--   Handlers.Limiter
--                   internal/handlers/middleware.go: the token buckets and the limiter by client
--   Handlers.Recompile, Requests
--                   internal/handlers/handlers.go: Recompile, prefetchForCompile, recompileLocked, and
--                   the handlers rules (POST), rulesDefaults, peersReceive and apply
--   Handlers.Reads, Controls
--                   handlers.go: auditHandler, exposure, rulesTemplates, rules (GET) and the bounds of
--                   events and geoLookup; commit, revert and peersPush
--   Handlers.Bound  what recompileLocked makes of the rules that are bound to containers
--   Handlers.Routes, Views
--                   handlers.go: the table of Routes with its limiters; status, config, events,
--                   conntrack, systemContainers, peersList, updateStatus and debugLevel
--   Zfwd            cmd/zfwd/main.go: buildHandler, sameOrigin, resolveJWKSURL, seedRulesIfMissing,
--                   the first compile of main;
--                   in Front, what a request has passed when a handler runs; in Seeded, the first
--                   start
--   Notify          internal/notify/notify.go: New and Send
--   System          internal/system/system.go: Listening, DockerPorts; in Docker, DockerContainers and
--                   parseDockerPorts; in Tells and Entries, the shape of what they read; in Versions,
--                   Versions; in Lan, DetectLAN, DetectLAN6 and the two caches
--   Redirect        internal/httputil/redirect.go: SafeCheckRedirect, hostIsPublic, IsLoopbackURL
--   Update          internal/update/update.go: Compare, CheckOnce
--   Conntrack       internal/conntrack/conntrack.go: parseLine, parseStream, Read
--   Events          internal/events/events.go: Classify; in Reading, parseDropLine and Read
--   Dockerwatch     internal/dockerwatch/dockerwatch.go: consume, as a step relation; in Run, Run
--   Audit           internal/audit/history.go: Update, Attach; in Stored, LoadHistory and
--                   SaveHistory; in Catalog, Findings of audit.go
--   Peers           internal/peers/peers.go: Load, Sanitize, Push and pushOne
--   Gateway         internal/gateway/gateway.go: mgmtURL, Register, LookupTarget, the waits of
--                   RegisterWithRetry
--   Watchdog        internal/watchdog/watchdog.go: EnsureInstalled
--   Tests and the files whose names end in Tests
--                   runs on small inputs, on files kept in a function, on a small system
--
-- A Go string is a list of bytes. An int is an integer of any size: the code compares ints and
-- prints them, and counts orders up by ten; strconv.Atoi keeps its 64-bit range, and the numbers of
-- atoiList wrap at 64 bits as they do there. A builder that is appended to is the text appended; an
-- error return is `err`; a nil pointer is `none`. The loop of migrate has fuel 4, for the three
-- steps and the last test; multiport has as much fuel as ports, and each round takes one at least;
-- trimming has the text's length, and printing a number one round more than the number.
-- Parameters: lower case and quoting beyond ASCII, and the parsers of packages net and net/url
-- (`Std`, `Networks`, `Net`); what http.ServeMux finds for a path, the requests that go out and
-- their responses; the file system, JSON and the random bytes of ids (`FileSystem`, `Json`,
-- `random`); Base64, digests and signatures (`Library`); the commands of the host (`Host`), or what
-- they print (`Inventory`, `Outputs`); what other requests do until one holds the server's lock
-- (`Daemon`); downloads, and what the clocks read. Other callers of `Load` are a function on the
-- files, applied where the lock is taken; a request that meets the key cache, the index or the
-- limiter finds no other one at work in it. The order in which a `range` visits a map is an
-- argument, or the order of a list. Tokens of the limiter are whole numbers of 10^-9, where the
-- code computes with float64.
--
-- Not modelled: the log lines, the handlers health, openapi and versions, which pass on one value, the
-- cap on bodies, the rest of main of cmd/zfwd, which makes the parts and waits for signals, and the
-- engine's shell script. What the kernel says of its routes and
-- interfaces and Docker's process are what the arguments of Lan and the steps of Run leave open.
pub mod Common
pub mod Rules
pub mod Audit
pub mod Config
pub mod Compiler
pub mod Handlers
pub mod Tests
pub mod StoreTests
pub mod StarterTests
pub mod AuditTests
pub mod LimiterTests
pub mod Firewall
pub mod FirewallTests
pub mod Update
pub mod UpdateTests
pub mod Conntrack
pub mod ConntrackTests
pub mod Auth
pub mod AuthTests
pub mod Events
pub mod EventsTests
pub mod Redirect
pub mod RedirectTests
pub mod Dockerwatch
pub mod DockerwatchTests
pub mod Geo
pub mod GeoTests
pub mod Peers
pub mod PeersTests
pub mod System
pub mod SystemTests
pub mod HandlersTests
pub mod Gateway
pub mod Watchdog
pub mod Notify
pub mod Zfwd
pub mod ZfwdTests
pub mod SeedTests
pub mod GatewayTests
