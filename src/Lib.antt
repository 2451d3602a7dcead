-- ===== src/Lib.antt =====
-- A verification library for cubelite, a Kubernetes context and cluster viewer: the core crate
-- crates/cubelite-core, and the state that the desktop application keeps over it in
-- apps/desktop/src-tauri/src/commands.
--
-- The parts and how they interact. A kubeconfig list is resolved, loaded and merged (kubeconfig.rs);
-- the context operations (context.rs) load such a list, read it, or switch its current context and
-- save it. An exec session's output is cut into lines (exec.rs), and the lines of a pod's log are
-- parsed (logs.rs). The integrations with Elasticsearch and Prometheus (integration.rs) detect their
-- services in a cluster by the classifiers of elastic/transport.rs and prometheus/transport.rs, bind
-- stored credentials to an endpoint, check external URLs, and open tunnels to the pods behind a
-- service; elastic/mod.rs, prometheus/mod.rs and prometheus/nodes.rs build their queries and links
-- and read the answers, and elastic/transport.rs pages through a log on a point in time. A client of
-- a context is built from a document that client.rs merges. The desktop keeps the credentials in the
-- system's keychain under those bindings (vault.rs, elastic.rs) and the open connections in a cache
-- that many calls share (cache.rs).
--
-- The files. Prelude: lists, options, results, texts, association lists and ordered maps, orders and
-- the stable sort, each under the name of the Rust method it stands for. Json: serde_json::Value.
-- Paths: std::path on Unix. K8s: the fields of the Kubernetes objects that the program reads. Exec:
-- crates/cubelite-core/src/exec.rs. Kubeconfig: kubeconfig.rs, types.rs and error.rs, with the
-- documents in Yaml, the merge in Merge and Redefined, the methods of KubeConfig in Access and the
-- choice of the files in Resolve. Context: context.rs. Client: the kubeconfig document of a client
-- in client.rs. Integration: integration.rs, in Target (endpoints and their checks), Tunnel,
-- Classify (the two classifiers), Detect (ranking and pick) and DetectAll (the check of owners and
-- the whole). Watcher: watcher.rs and the records of resources.rs. Prometheus: prometheus/mod.rs in
-- Query (literals), Workloads, Charts and Responses, prometheus/alerts.rs in Alerts, and
-- prometheus/nodes.rs in Plans (the queries), Nodes (their runs) and Instances. Elastic:
-- elastic/mod.rs and elastic/cluster_filter.rs in Types, Escapes, Links, Search (the body of a
-- search) and Response (its answer), elastic/transport.rs in Transport (requests and answers) and
-- History (the pages on a point in time); what a server answers is a function of the exchanges
-- before it, and an operation gives its result and the connection after it. Logs: logs.rs. Helm:
-- helm.rs. Desktop: cache.rs in Cache, vault.rs in Vault and commands/elastic.rs in Elastic. The
-- modules below these hold the proofs, and their Examples the concrete inputs.
--
-- How state and operations correspond. A struct is a record and an enum a data type with the
-- source's names; a method is a function of that name whose first argument is self, and which
-- returns the new value of what it changes; the question mark operator is the bind of Result. A
-- String is the list of its Unicode scalar values, its bytes are their UTF-8 encoding, a HashMap is
-- an association list, a BTreeMap the list of its entries in key order and a HashSet a list read by
-- membership. The file system and the keychain are values that a write changes. What runs under a
-- lock is one function; the calls of get_or_connect are tasks of a world, and a step relation moves
-- one of them from one lock to the next, so that every interleaving is a sequence of steps. The
-- libraries serde_yaml, serde_json, url, keyring and kube, the file system calls and the environment
-- are records of functions, arguments of what uses them; what is relied on of them is a named
-- hypothesis (ReadsAgree, IsFaithful, Keeps, ReadsBack, KeepsNames); HasPlainKeys is one on the files.
-- A reference to a listed service is its index in the list. The receiver of an exec session's lines is
-- the number of lines it takes before it goes. On Windows the separators of paths differ and are not
-- modelled.
--
-- Bounds. Every loop of the modelled code runs over a list and is structural recursion, with these
-- exceptions: the digits of a number, five for a 16-bit port, which hold it; the digit counts of a
-- job's index, seven, which is where its loop ends; and the letters of a query's name, for which one
-- round more than the query's number is enough. The generation of the connection cache wraps at
-- 2^64.
--
-- Not modelled: the calls of the Kubernetes API in client.rs, the HTTP clients, sockets and tasks
-- (start_exec, send, http_builder, connect, portforward.rs), which have no logic of their own beside
-- the libraries; metrics.rs, whose quantities are floating point; dynamic.rs; the commands that only
-- call the core crate, glue and user interface.
pub mod Prelude
pub mod Paths
pub mod K8s
pub mod Exec
pub mod Kubeconfig
pub mod Context
pub mod Integration
pub mod Watcher
pub mod Elastic
pub mod Prometheus
pub mod Desktop
pub mod Client
pub mod Helm
pub mod Json
pub mod Logs
