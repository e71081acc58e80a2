-- ===== src/Lib.antt =====
-- Verification library of kitdev-sandboxes: the planners of an installation, the host preflight,
-- the installation journal, the runner of lifecycle operations, and the scripts that keep state on
-- disk or size the host's memory.
--
-- How the parts fit together. The command line loads a configuration and collects facts about the
-- host. The preflight judges the facts, and the planners turn configuration and facts into a plan,
-- which is data and changes nothing. A plan is blocked by an issue, and a blocked plan has no
-- action. An installation records its steps in the journal, which survives a crash. The scripts are
-- run by the operator and by the installer: one keeps the ownership journal of the published
-- templates, the other the manifest of the HTTPS source allowlist, and the command line asks the
-- second for changes and checks its answers. A third keeps the secrets of the control plane in a
-- private file. The command line starts the lifecycle script for an operation of a fixed list and
-- reports how it ended, and before an installation a script checks that the host's memory holds the
-- sandboxes that are asked for.
--
-- Files. Each Python function has a definition of its name, without a leading underscore; a part of
-- a function that the theorems speak of has a definition of its own.
-- - Base, Base/: Boolean tests, lists, a stable sort, results with exceptions, texts as code
--   points, dictionaries with text keys.
-- - Checks, Checks/: `unquote` of urllib.parse with its UTF-8 decoding, and the patterns that
--   src/kitdev_sandboxes/planning.py applies to texts.
-- - Config, Config/Sample: the records of src/kitdev_sandboxes/config.py.
-- - Planning, Planning/: src/kitdev_sandboxes/planning.py. Types has the data, Checked what the
--   constructors check, Paths the owned directories, Lifecycle the releases, Facts the index of
--   observations, Directory the judgement of one directory, Build the plan. Observed, Outcome,
--   Loop, Built and Safety hold the proofs.
-- - Preflight, Preflight/: src/kitdev_sandboxes/preflight.py. Checks has the reports and exit
--   codes, Evaluate the checks of a host, Laws the proofs.
-- - Journal, Journal/: src/kitdev_sandboxes/journal.py. Texts and Record have the checks of
--   records, Json and Codec the encoding, Policy the trusted files and the walk to the root,
--   Directory the names and inodes, Files the calls that read, Store those that change the
--   directory, Session the locked sessions. Roundtrip, Entries, Listing, Holds, Temps, Replace,
--   Transition, Progress, Create, Crash, History, Walk, Shared and Chains hold the proofs.
-- - Template, Template/: scripts/control-plane/template-publication-state.py. Record has the
--   record's checks, Operations one run on a journal file, Steps, Laws and Repeat the proofs.
-- - Firewall, Firewall/: scripts/ingress/firewall_source_state.py in Networks, Manifest and State,
--   and src/kitdev_sandboxes/firewall_sources.py in Client. Valid, Reads, Changes and Agree hold
--   the proofs.
-- - Identity, Identity/: src/kitdev_sandboxes/identity.py. Types has the data, Inputs the checks of
--   the input, Mapping the allocation of numbers, Services the issues, Actions the actions, Build
--   the plan. Allocation, Reuse and Laws hold the proofs.
-- - Lifecycle, Lifecycle/: src/kitdev_sandboxes/lifecycle.py. Status reads the line that "status"
--   prints, Run has the checks, the subprocess' arguments and the result, Shown, Laws and Start the
--   proofs.
-- - PrivateEnv, PrivateEnv/: scripts/control-plane/private_env.py. Document has the keys,
--   `validate` and the lines, Operations the runs of the script on the host's file, Curl the two curl
--   configurations; Lines, Keys, Written, Laws, Token, Fresh, Attempts and Restored hold the proofs.
-- - Capacity, Capacity/: ansible/files/validate_host_capacity.py. Bounds and Accepted hold the
--   proofs.
--
-- Errors and state. A call that may raise returns a result with the exception. A run of a script
-- takes the file that stands at its path and returns what it prints or raises together with the
-- file that it leaves. A call of the journal takes a directory, in which names lead to inodes and
-- inodes hold a file each, and returns its result with the directory that it leaves; a crash is a
-- directory at a moment of a call. The lock keeps other processes away, so that a file is not
-- changed while it is read. The clock, the random names of temporary files, the metadata that a new
-- file gets, the parser of the journal's JSON (`json.loads`), the SHA-256 of the identity plan, the
-- parser of networks (`ip_network`, with the address tables of the standard library), what it tells
-- of the private file's subnet and gateway, the tokens that are new in that file, the failures of
-- calls on the curl configurations, the size of a template record's text, Python's tables of
-- letters and digits beyond ASCII, and the subprocesses of the allowlist's backend and of the
-- lifecycle script are parameters. JSON documents are given as parsed, with as much of each value
-- as the code tells apart.
--
-- Bounds. Numbers are natural; the input checks of the identity plan refuse what does not fit 32
-- bits. Loops are recursions over the lists that they run through. Fuel stands in three places: the
-- decimal digits of a number n have fuel n + 1, and every step divides by ten; `scan` of `unquote`
-- has the length of the text, and every step takes a character; and the search for free numbers has
-- one step for each candidate of the range.
--
-- Not modelled: collectors, command runner, stages, API keys, command line, rendering and redaction
-- of reports, the file system calls behind the scripts (a file is what `lstat` and the decoder make
-- of it, and a replacement is one step), shell and Ansible.
pub mod Base
pub mod Capacity
pub mod Checks
pub mod Config
pub mod Firewall
pub mod Identity
pub mod Journal
pub mod Lifecycle
pub mod Planning
pub mod Preflight
pub mod PrivateEnv
pub mod Template
