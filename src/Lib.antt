-- ===== src/Lib.antt =====
-- Verification of cloudtap: the policy configuration, the tunnel manager with its daemon and
-- client, and the frp adapter.
--
-- The program. cloudtap lets remote users reach services behind a tunnel, and asks a policy before it
-- does. Its daemon keeps a tunnel manager (pkg/tunnel), which caches the targets that a source finds
-- and holds a table of open tunnels. An adapter (pkg/adapter) wraps a tunnel client; the one for frp
-- (pkg/adapter/frp) runs frpc as a child process and restarts it when it fails, and serves the
-- webhook that frp calls for every login, proxy and connection, so that a handler can allow or deny
-- them. The policy (pkg/policy) is read from YAML and validated. The daemon (cmd/cloudtapd) serves the
-- manager over HTTP and over gRPC; the client (cmd/cloudtapctl) asks it over gRPC and, if that fails,
-- over HTTP.
--
-- Which file models which part:
--   Prelude, Text, GoMap, Time   numbers, integers, strings as lists of bytes, maps as association
--                                lists, instants and durations in nanoseconds
--   Policy                       pkg/policy/types.go: Policy, Rule and Match with their Validate;
--                                Policy/Protocol its protocol test, Policy/Validity and Policy/Blame
--                                what Validate accepts and whom it blames, Policy/Loading Parse and
--                                LoadFromFile; Policy/Evaluator the stub of pkg/policy/policy.go
--   Tunnel                       pkg/tunnel/manager.go: Manager and its methods Open, Close,
--                                RegisterTarget, ListTargets, ensureTargets; Tunnel/Address
--                                ResolveNetworkAddr and the TCPDialer of pkg/tunnel/dialer.go;
--                                Tunnel/Cache, Sessions and Listing the methods' properties,
--                                Tunnel/Interleaving the critical sections as a step relation;
--                                Tunnel/Spec the abstract view of a manager, two partial functions of
--                                the names, with what each method promises of it, Refinement and Calls
--                                that the methods keep it
--   Adapter                      pkg/adapter/adapter.go: events, decisions, sentinel errors, Status
--   Frp/Content                  the messages of pkg/adapter/frp/webhook.go, parseAddr, buildTarget
--   Frp/Webhook                  WebhookServer of that file: processRequest and its six handlers;
--                                Events the events they build, Http handleRequest, Serving the
--                                configuration, Start, Stop and shutdown; Gate, Metadata, Tracking
--                                and Closing their properties; Concurrent the atomic steps of the
--                                handlers in any order
--   Frp/Adapter                  Adapter of pkg/adapter/frp/adapter.go: Config, New, OnConnection,
--                                Status; Loop runLoop, Loop/Processes startProcess and waitProcess,
--                                Lifecycle Start and Stop; Rounds, Retries, Streak, Backoff and Flags
--                                the properties of the loop, Lifecycle/Once and Returning those of
--                                Start and Stop; Lifecycle/Protocol the steps of Start with its loop
--                                and the webhook server and of callers of Stop, at once, with
--                                Invariant, Settling, Stopping and Children what holds of them
--   Daemon                       cmd/cloudtapd/main.go: parseConfig, the HTTP handlers and the gRPC
--                                methods over the interface tunnelController, which Tunnel fills;
--                                Daemon/Handlers what the two services say and do, Daemon/Demo what
--                                they do with the manager that main makes, Daemon/Shutdown
--                                runHTTPServer, runGRPCServer and main's treatment of their errors
--   Client                       cmd/cloudtapctl/main.go: requestTunnel, closeTunnel and listTargets;
--                                Client/Settings the addresses, Tls the TLS settings and credentials,
--                                Command main; Client/Link the daemon as the other side of a network
--                                that may lose messages, Answers, Retried and Outcome what holds across
--                                it
--   Examples                     runs of the theorems on concrete data
--
-- How the code corresponds. A method that changes its receiver takes the state and returns the new
-- one with its result; an error is a value with the data that its message quotes. A context is the
-- error that it gives at each instant, and a call gets the instants at which it looks at its context
-- and the clock. A mutex makes a critical section one step. An atomic.Int32 is its 32 bits, a
-- time.Duration an integer whose doubling wraps at 64 bits. The webhook's handlers return their
-- response, the events that the handler was shown, and the new server.
--
-- Parameters, for code that is not in the repository: net.ParseCIDR, filepath.Clean, os.ReadFile and
-- the YAML decoder; url.Parse and the network's dial; a Library of the JSON decoders,
-- net.SplitHostPort and fmt.Sscanf; the fresh UUIDs and times of a request; the error of net.Listen
-- and of the HTTP server's Shutdown; the results of os/exec and the probe of a process; the network of
-- the client, the two ends of its URLs and JSON, strings.TrimSpace, tls.LoadX509KeyPair and the PEM
-- parser; errors.Is with the two errors of a server that was shut down. strings.EqualFold is written
-- out for the lower-case ASCII words that it is compared with.
--
-- Loops. The loops over rules, targets and metas are structural recursion, so there is no fuel but
-- in the decimal digits of a port, which takes one more step than the number is large. runLoop does
-- not end by itself: it runs over a list of rounds, each holding what the process and the context do
-- in it, and is still going when the list is used up. A theorem that it has ended asks for a list
-- that is long enough. Where it matters where the loop
-- waits, in Lifecycle/Protocol, it is a step relation with a place for each of its selects. The
-- webhook's requests are taken one after another in Frp/Webhook, and step by step in any order in
-- Frp/Webhook/Concurrent.
--
-- Go ranges over a map in any order. A map here is an association list with the last write kept, and
-- what is stated of a ranged map does not depend on the order: it speaks of a sorted listing, or of
-- lookups by key.
--
-- Not modelled: logging, sendResponse and Addr of the webhook server, which only write or read the
-- network; the process output of frpc; SetCommandRunner; pkg/observability, which logs one line; the
-- generated code in proto; /healthz, the sockets and signals of cmd/cloudtapd; usage and the flag
-- package of cmd/cloudtapctl.
pub mod Prelude
pub mod Text
pub mod GoMap
pub mod Time
pub mod Policy
pub mod Tunnel
pub mod Adapter
pub mod Frp
pub mod Daemon
pub mod Client
pub mod Examples
