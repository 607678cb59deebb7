-- ===== src/Lib.antt =====
-- Limitless Library: the exactness core of the receiver's side.
--
-- A receiver asks a catalog or a service for a component, adopts it by exact bytes, records what its
-- environments showed, keeps the key of its installation, and talks to an agent over MCP. The parts that are modelled, with the files that they stand for:
--
--   VersionRange   src/limitless_library/_service_support.py, `_version`, `_parse_range` and
--                  `version_range_covers`: whether what a component supports covers what a
--                  receiver requires. A version is the list of its four numbers, a range is text.
--                  VersionRange/Exact states which versions a text admits, clause by clause,
--                  without intervals; the intervals of the code are compared with that.
--   Wire           the same file, `_exact`, `_text`, `_checks`, `_locator` and
--                  `validate_next_action`: the action that a signed result asks an agent to take.
--                  Wire/Shape has the shapes, Wire/Checks the checks and locators,
--                  Wire/NextAction the six kinds.
--   Mcp            src/limitless_library/mcp_protocol.py: the requests' shapes (Mcp/Messages,
--                  Mcp/Requests), the constructor of `McpToolDispatcher` (Mcp/Dispatcher), its
--                  methods `handle`, `_modern`, `_legacy`, `_call` (Mcp/Handle), and the session
--                  that the era of `initialize` goes through (Mcp/Session).
--   Receiver       the receiver's files as a list of paths and nodes (Receiver/Tree), the trees
--                  that a transaction makes of them (Receiver/Grown), and the paths of
--                  src/limitless_library/contracts.py (Receiver/Paths).
--   Install        src/limitless_library/installer.py: `validate_recipe` (Install/Recipe), the
--                  steps that change the tree (Install/Transaction), and
--                  `adopt_exact_component` (Install/Adopt).
--   Catalog        src/limitless_library/catalog.py, `_matches`, `_search_terms`,
--                  `_objective_score` and the part of `LocalCatalog.query` that selects a
--                  candidate. `lower` is the parameter for `str.lower`; a sort is an insertion
--                  sort, stable as Python's.
--   Service        src/limitless_library/service_contracts.py, its helpers of shapes and times
--                  (Service/Shape, with `parse_utc` of src/limitless_library/contracts.py), the
--                  root keys and their transitions (Service/Roots and
--                  Service/Roots/Transitions), a set of transitions (Service/Roots/Chain, with
--                  `_decode_key` and `_current_roots` of
--                  src/limitless_library/service_connector.py), and `_receiver_context`
--                  (Service/Context). Service/Roots/Follow has the abstract view: a state that
--                  follows one effective transition after another.
--   Environment    src/limitless_library/receiver_environment.py: the validation of a profile
--                  (Environment and Environment/Validation), its digest (Environment/Digest), and
--                  `project_service_receiver_context` (Environment/Projection).
--   Evidence       src/limitless_library/receiver_evidence.py: checks and their outcome
--                  (Evidence), `validate_receiver_evidence` (Evidence/Validation), and
--                  `build_receiver_evidence` (Evidence/Build).
--   Bundle         src/limitless_library/exact_file_bundle.py: a directory as one payload, parsed and
--                  built.
--   Identity       src/limitless_library/installation_identity_contracts.py: keys and signatures
--                  (Identity), the two requests (Identity/Requests), the service's attestation
--                  (Identity/Attestation) and session response (Identity/Response), and what the
--                  client builds (Identity/Build). src/limitless_library/service_identity.py: the
--                  validated state (Identity/Custody), what is computed between the accesses to
--                  its file (Identity/Steps), and `ensure_installation_session`
--                  (Identity/Session).
--   Server         src/limitless_library/mcp_server.py: `_bounded_lines` on the bytes of the input,
--                  and the loop of `main` over a session.
--   Base           JSON values as Python has them after `json.loads`, outcomes with an error,
--                  tests, lists and text.
--   Tests          runs at concrete inputs.
--
-- How they interact: an installation resolves its targets by Receiver/Paths and changes the tree of
-- Receiver/Tree. An evidence is validated against a profile of Environment, and the projection of a
-- profile is a receiver context of Service. The connector takes the transition set that Service has
-- validated. The server's loop hands each message to the session of Mcp. The shapes of Wire/Shape
-- serve Service, Environment and Evidence, those of Service/Shape serve Identity. The parts share the JSON values, and no state.
--
-- Python's exceptions are the second case of `Outcome`, with the text of the message where the
-- source fixes it. State is passed explicitly: a transaction for an installation, a session and the
-- tool's own world for MCP, the trusted roots for the service, the bytes of the state file for an
-- installation's identity. A dict is the list of its entries in
-- order. The recursion is structural, on the text, the list or the path, but for the reads of
-- `_bounded_lines`: they run on fuel, as much as the input has bytes, which every round shortens; the
-- theorem on them has that bound for a condition. Every definition is total. Numbers are not bounded,
-- as Python's are not.
--
-- What is not under this repository is a parameter: `Codec` is `json.dumps` and `json.loads`, `Host`
-- is hashing, the JSON schemas' validation, the catalog, the sandbox with its verifiers and the
-- directory of receipts, `Os` says which calls of the operating system fail, those of the roll-back
-- too, and what a copy that is cut short leaves, `call_tool` is the tool behind the dispatcher, which
-- may change a world of its own and raise, and `Toolkit` is the clock's texts, base64, SHA-256, canonical JSON and
-- Ed25519. The server takes the decoding of UTF-8 and the reading of JSON. A parameter `unordered` is
-- what Python does where it cannot sort required ids that are no texts. `Keys` is Ed25519 on private
-- keys and `dict` on a value that is no dict, `Connector` the two requests to the service with the
-- keys that it has verified, and the `Os` of Identity what securing, reading and writing the state
-- file raise, before `os.replace` (the old bytes stay) and after it (the new ones are there). `Texts`
-- is UTF-8, NFC and JSON on the bytes of a bundle.
--
-- Not modelled: another process that changes the receiver during an installation, and verifiers
-- that do (the tree passes through them unchanged); what `os.fsync` keeps over a crash, and file modes;
-- `modern_metadata`, `seal_recipe` and `_real_receiver`; the catalog's loading and its
-- decisions, of which only the selection is here; the service's query,
-- result, discovery and outcome contracts, and the connector's transport; the tools and the
-- argument parser of the MCP server; method capture and publication, the sandbox and the command
-- line.
pub mod Base
pub mod VersionRange
pub mod Wire
pub mod Receiver
pub mod Install
pub mod Mcp
pub mod Tests
pub mod Catalog
pub mod Service
pub mod Environment
pub mod Evidence
pub mod Server
pub mod Identity
pub mod Bundle
