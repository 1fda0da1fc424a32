-- ===== src/Lib.antt =====
-- A model of SAIAI, the client that sets up, diagnoses and revokes managed Claude and Codex homes
-- behind one Gateway (tools/saiai-core), and of the choice of the proxy that its connections go
-- through (tools/saiai-cli), with theorems about them.
--
-- The program keeps three directories: config with config.json, data with credentials and
-- generations (one client home each), and state with locks, leases, runtime and logs. A setup
-- writes a fresh generation and a fresh credential and then replaces config.json atomically, so
-- the configuration names one committed generation per product; what it replaced is cleaned up
-- afterwards. Guards undo what a setup did when it fails before the commit.
--
-- Prelude holds what all parts share: Boolean tests, lists, text as code points with the operations
-- of Rust's str and char, and results with do blocks.
--
-- Core, by file of tools/saiai-core/src:
--   Refs         model.rs Product; CredentialRef::new of credentials.rs, GenerationRef::new of
--                config.rs, is_portable_reference_component of fsutil.rs, and the names that
--                setup.rs generates and recognises
--   Error        error.rs
--   Gateway      config.rs: GatewayUrl, its parser (Parse), what its own text is parsed to
--                (Stable), and the test that it shows no credential
--   Credential   credentials.rs: SecretString
--   Config       config.rs: ProductEntries, ConfigV2, the checks of its deserializer; the texts of
--                config.json and how its fields are read and written (Wire);
--                validate_shared_base_url
--   Fs           a file tree: what stands at each path
--   Prog         programs over the world: they return or fail, and what was done before a failure
--                stays done
--   Sys          the calls of std::fs and uuid that the core makes
--   Files        fsutil.rs
--   Paths        paths.rs
--   Artifacts    artifacts.rs
--   Env          the directories and the crates that an installation is given
--   Lease        lease.rs: the exclusive probe
--   Store        credentials.rs: FileCredentialStore
--   Home         setup.rs: writing and validating a client home
--   Status       the status types of model.rs and the receipts of setup.rs
--   Load         setup.rs: load_config, load_credential, client_home, setup_status
--   Transaction  setup.rs: the transaction lock, the checks of the roots and the cleanups
--   Setup        setup.rs: setup_product_with_fault
--   Revoke       setup.rs: revoke_product_with_fault, with discover_product_resources (Resources)
--                and RevokeQuarantine (Quarantine), and the full revocation (Full)
--
-- Upstream, for tools/saiai-cli/src/upstream_proxy.rs: a connection to the Gateway goes directly or
-- through a proxy that the setting, the environment or the operating system names. Each reading of
-- these is published as a snapshot with its policy, and HTTP clients are kept per snapshot and route.
--   Str, Ip      the operations of Rust's str, integers and IpAddr that it calls
--   Glob         glob_matches: the loop, what a pattern means (Meaning), the greedy search on what is
--                left (Greedy), and that the loop over indices is that search (Index)
--   Network      ip_in_network, and that its mask compares leading bits (Prefix)
--   Endpoint     Endpoint::parse, is_listener, normalize_host, host_port, parse_mode; percent_decode
--   Bypass       Bypass::parse, Bypass::matches, split_entry_port, parse_network
--   Policy       StaticProxies::route, EnvProxies::from_lookup, system_policy
--   Platform     windows_static_proxies, os_policy, policy_from_inputs; macos_policy in Scutil
--   Snapshot     route_blocking, pac_decision, first_proxy
--   Tunnel       read_response_head, parse_status and the answer of open_tunnel, over bytes
--   Same         the derived equalities of Inputs and Route
--   Clients      UpstreamProxy::publish and HttpClients::client over what their locks guard
-- Core's Runs, Example, RunTests, RevokeTests and ValueTests and Upstream's Tests run the model on small inputs.
--
-- The world is the file tree, the count of identifiers that were drawn, the lease files that other
-- processes hold, and one entry for each system call to come that says whether it fails for a
-- reason outside the tree. A theorem that holds for every world thus covers every pattern of
-- failing calls. A guard whose drop cleans up is undone_by; a result that the code discards is
-- best_effort. Paths are lists of components below the root.
--
-- The url, serde_json, toml_edit, rcgen and x509-parser crates, and the identifiers that uuid hands
-- out, are parameters (Env, Crates, UrlCrate). A GatewayUrl is its text, since
-- URLs are equal exactly if their texts are. The decoding loop of the gateway test runs on fuel,
-- one more than the length of its input, which is enough as each round consumes a byte; so do
-- percent_decode and decimal printing. The loop of glob_matches runs on fuel for as many outer
-- rounds as the pattern and the text have bytes, each through the whole text.
--
-- The code is modelled as it runs on Unix. Not modelled: modes and owners of files, what lies
-- behind a symbolic link, a remove_dir_all that stops half way, zeroing of secrets, other processes that change the tree during a call,
-- fault injection for tests, provisioning over HTTP, the permissions audit, the program
-- lookup, the rest of tools/saiai-cli and tools/saiai-desktop, which are proxies, launchers and user
-- interfaces around this core; of the upstream proxy, what is only printed, the sockets, the
-- timeouts, the prewarming and the WinHTTP calls. Network errors enter as the end of the bytes.
pub mod Prelude
pub mod Core
pub mod Upstream
