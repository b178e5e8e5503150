-- ===== src/Lib.antt =====
-- The core of siteboost: a local accelerator for web sites. A set of rules says which hosts it
-- covers; the hosts reach the local proxy by one of several ways, each of which changes a setting of
-- the system and keeps a rollback file to undo it: a PAC script or the system proxy, the hosts file,
-- or a DNS server. The proxy resolves the covered hosts and dials them through outbound profiles, or
-- an upstream proxy.
--
-- The parts, with their sources and their modules:
-- - internal/rules/rules.go: Rules. `normalize_host` is NormalizeHost, `new_matcher` NewMatcher,
--   `match_host` MatchHost, `rules` Rules, and so on by their names. Rules.Building and
--   Rules.Coverage treat what NewMatcher builds, Rules.Matching what MatchHost answers, Rules.Sorting
--   the sorting that several parts use.
-- - internal/pac/pac.go: Pac. `Script` is what Generate puts into the template, `find_proxy` the
--   template's JavaScript function over it, `host_matches` HostMatches. Pac.Agreement compares them.
-- - internal/hosts/hosts.go: Hosts has the text of the hosts file and the entries
--   (removeManagedBlock, appendManagedBlock, renderBlock, EntriesFromDomains, EntriesFromRules);
--   Hosts.Platform has Preflight, Apply, Restore and HasState over a platform. Hosts.Lines,
--   Hosts.Block, Hosts.Restoring and Hosts.Entries are about the text, Hosts.Ending and Hosts.Applying
--   about the operations.
-- - internal/systemproxy: SystemProxy has Apply and Restore over any platform, SystemProxy.Windows
--   the registry (windows_platform.go, registry_windows.go), where each call may fail;
--   SystemProxy.Registry and SystemProxy.Applying are about them.
-- - internal/systemdns: SystemDns has Apply and Restore over any platform with the handling of the
--   configuration, SystemDns.PowerShell the quoting (windows_platform.go); SystemDns.Applying,
--   SystemDns.Quoting and SystemDns.Cleaning are about them.
-- - Rollback is WriteState, ReadState and RemoveState, which hosts, system proxy and system DNS share
--   in form. A write of a file may fail with the file as it was, cut short, or written; the hosts file
--   has any text behind a failed write.
-- - internal/dnsintercept/server.go: DnsIntercept. `handle` is handle, with the state `Server`: the
--   cache and the counters. DnsIntercept.Library holds what is relied on in the DNS library;
--   Replies, Lifetimes and Caching are about the replies, the times for which they are kept, and the
--   cache.
-- - internal/resolver/resolver.go: Resolver. `resolve` is Resolve over the cache; `resolve_fresh`
--   and what it calls choose servers and read answers. Resolver.Policy is about applyPolicy,
--   Resolver.Caching about the cache.
-- - internal/provider: Provider and Provider.Builtin (steam.go, github.go); Provider.Resolving is
--   about ResolveEnabled.
-- - internal/upstream: Upstream.Profile (profile.go), Upstream.Dialing (the direct dialer of
--   upstream.go) and Upstream.Socks (its SOCKS5 client), with Upstream.Matching, Upstream.Fallback and
--   Upstream.Requests about them.
--   Upstream.Starting is ConfigFromApp and NewDialer.
-- - internal/config/config.go: Config. Config.Types has the records, Config.Normalizing the
--   normalisation of single values, Config.Profiles, Config.Intercept and Config.Enhancement the checks
--   of these parts, Config.Validating Validate as a whole, Config.Defaults Default, and Config.Legacy
--   LoadFile with the search for removed keys. Config.Valid and Config.ValidEnhancement say what a
--   usable configuration is, and the modules Accepting, AcceptingProfiles, AcceptingDns, Accepted and
--   AcceptedEnhancement prove it of what is accepted.
-- - internal/engine/engine.go: Engine. Engine.Types has the state `Engine`, the world of servers and
--   settings, and the record `Calls` of what the calls report; Engine.Planning is Start up to the
--   dialer; Engine.PreparingHosts, Engine.Starting and Engine.Running are the rest of Start,
--   Engine.Stopping is Stop, Engine.Reporting New and Status. Resolver.Starting has
--   effectiveResolverConfig. Engine.Modes, Engine.Lifecycle and Engine.Refining compare the engine with
--   a machine of two phases; Engine.DnsMode, Engine.SystemDnsMode, Engine.Undoing and
--   Engine.WindowsProxy are about the engine together with the other parts.
-- - internal/proxy/server.go: Proxy, with its handlers as functions of the request and of what the
--   upstream and the connection of the client report; Proxy.Forwarding is about what is sent
--   on, Proxy.Authority about the host of a CONNECT request.
-- - internal/runtime/control.go: RuntimeControl, with its handlers as functions of the request;
--   RuntimeControl.Authorising is about what a request can do.
-- - Common, Text and External are shared: results, lists and association lists; texts and the
--   functions of Go's strings and net packages that the program calls; and its other libraries.
-- - Tests holds concrete inputs and the theorems at them.
--
-- The engine is a client of the other parts through `Calls`, over any state of the system. Start reads
-- whether the engine runs and writes its fields under a lock, and does the rest outside of it; the model
-- has whole calls one after the other. Of the fields, startedAt and the clones of lists are left out.
--
-- Conventions. A text is a list of code points, and in Upstream.Socks of bytes. Numbers are natural
-- numbers; counters and conversions to uint32 and to bytes wrap as in the source. Durations and clock
-- readings are natural numbers of nanoseconds, and an operation takes the readings that it makes as
-- arguments. A map is an association list. All loops are structural recursion, so no fuel is needed.
-- Errors keep their cause and not their message.
--
-- The record External.Externals stands for code outside the repository: Unicode's tables outside
-- ASCII, idna.Lookup.ToASCII, url.Parse, net.ParseIP and the text of an address, strings.EqualFold and
-- the canonical form of header names. Other parameters are the DNS library's
-- replies, the browser's toLowerCase, what the network answers, and how the file system and the
-- platform's calls turn out. The theorems name what they rely on in these.
--
-- Not modelled: sockets, HTTP and TLS, certificates, processes, logging, YAML and JSON text; the
-- reverse proxy, page enhancement beyond its configuration, the file of the runtime state, the helper
-- process, the command line, and two calls of Start at the same time.
pub mod Common
pub mod Text
pub mod External
pub mod Rules
pub mod Pac
pub mod Hosts
pub mod Rollback
pub mod SystemProxy
pub mod Config
pub mod Resolver
pub mod Engine
pub mod RuntimeControl
pub mod Proxy
pub mod DnsIntercept
pub mod Upstream
pub mod Provider
pub mod Tests
pub mod SystemDns
