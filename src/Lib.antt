-- ===== src/Lib.antt =====
-- BlackBox, a service that collects crash reports of microcontrollers, resolves their addresses
-- against firmware builds, groups them by signature, and explains them. The parts modelled here are
-- those that a report passes through, the devices that send it, and the accounts that guard it.
--
-- A request is authenticated (Access, backend/app/api/deps.py) as a user or, by its key, as a device
-- (Devices, backend/app/services/device.py). A report of a device is received (Crashes,
-- backend/app/services/crash.py) and normalised by the parser (Parser,
-- backend/app/services/crash_parser.py).
-- The stack words, PC and LR that it stores are turned into a call chain (Stack,
-- backend/app/services/stack_analyzer.py), for which the symbolizer (Symbolizer,
-- backend/app/services/symbolizer.py) resolves each address with the sorted symbol index (Symbols,
-- backend/app/services/elf_parser.py) and the line table. The names of the chain give the signature
-- that groups crashes (Stack/Signature), and Grouping (backend/app/services/symbolication.py) keeps
-- the groups and their counters. Documents of the knowledge base are cut into chunks
-- (Chunking, backend/app/services/ai/chunking.py). Users log in, renew their sessions and reset
-- their passwords (Auth, backend/app/services/auth.py and backend/app/core/security.py);
-- administrators keep the accounts (Users, backend/app/services/user.py).
--
-- Prelude: Boolean tests on native numbers, Python's `str` as a list of code points with `strip`,
--   `join` and decimal and hexadecimal digits, the stable sort and `bisect_right`, lists.
-- Errors: the exceptions of backend/app/core/exceptions.py, and what a call that may raise gives.
--   Audit: the entries of the audit log (backend/app/services/audit.py). Tables: the forms of query
--   that the repositories share, on lists of rows, with their laws.
-- Symbols: `Symbol`, `SectionRange`, `build_address_index`, `lookup_symbol`.
-- Elf: `detect_kind`; Elf/Reader what `ElfParser` keeps of a file, which enters as pyelftools reads it;
--   Elf/Map `MapParser.parse_text`, whose regular expression is a scan with `str.isalnum` past ASCII as
--   a parameter.
-- Symbolizer: the state of `Symbolizer` is its index and the line table that is filled in on first
--   use; `resolve` gives a frame and the next state. pyelftools and the artifact file enter as
--   `Artifact`: the line programs, or an exception. addr2line is off, as the configuration's default
--   has it.
-- Stack: `reconstruct_stack`, with its nonlocal variable, its frames and the symbolizer as the state
--   `Scan`. Stack/Signature: `normalize_function_name`, `build_signature`, `build_title`; SHA-256 is
--   a parameter.
-- Chunking: `chunk_text`. The `while` loop runs on fuel, one more than the length of the text, which
--   is enough as every step moves the start on; the result says whether the loop ended.
-- Auth: Store has the tables as lists with the queries of backend/app/repositories/user.py,
--   Security tokens and passwords, Login `register` and `authenticate`, Sessions
--   `refresh` and `logout`, Passwords resets and changes, ApiKeys the keys
--   of devices (backend/app/services/device.py). Each handler takes the database and gives its
--   result with the next one; it reads the clock once. bcrypt, the JWT library, SHA-256 and case
--   mapping are the fields of `Platform`, and what bcrypt and the JWT library document is
--   `Documented`. A session's jti and a key's prefix, which the database holds
--   unique, are keys of the queries; so is a link's hash, that of a fresh 256-bit secret.
-- Parser: Value has JSON values and the accepted names of a field, Address `parse_address`, Fault the
--   fault types and severities, Registers and StackWords the dumps, Timestamp `_parse_timestamp`,
--   Parse the whole of `parse`. A double is a sign, a numerator and a power of two. Python's reading
--   of dates and floats is the parameter `Clock`, and `str` of a float or a container the parameter
--   `render`. A warning is kept without its words.
-- Grouping: `_assign_group` with `recompute_counters` of backend/app/repositories/crash_group.py, over
--   the tables of groups and reports; the id of a new group is drawn outside.
-- Builds: `find_for_crash` of backend/app/repositories/build.py; a build is the columns read here with
--   its symbols and its file. Symbolication: `_resolve_frames` and `symbolicate_report`, with the
--   chain, the signature and the group of a report; what the report gets is in the outcome.
-- Users: creation, update and deletion of accounts by administrators, who cannot give up their
--   own role.
--   A null for a column that may not be null raises the database's error. Ids are drawn outside.
-- Access: the bearer token, the roles and the key of a request; Access/Uuid reads the subject of a
--   token as `uuid.UUID` does.
-- Fleet: the tables of devices, keys and reports. Devices: `create`, `update`, `delete` and
--   `heartbeat`; Devices/Credentials the keys; Devices/Payload the validation of
--   backend/app/schemas/device.py. Of an update the log keeps the names of the fields.
-- Crashes: `ingest`, in which `receive` is what goes up to the first commit; Crashes/Triage
--   has `update` and `delete`. The services of symbolication and notification, which the constructor
--   takes and may lack, run after it as the parameters `Services`; each gives the tables that it
--   leaves, after the rollback where it raises. A column that only they fill is left out.
-- Worker: the tasks of backend/app/worker.py that purge tokens, mark silent devices and parse a stored
--   report again.
--
-- Not modelled: routing and the rest of the HTTP interface, the database driver and its transactions
-- beyond the order of writes, queries that only list or search, the services of builds, diagnosis,
-- the knowledge base, notifications, analytics and export, and everything outside
-- backend/app. They are left for now; what reads and writes files or calls the network is outside.
mod Prelude
pub mod Access
pub mod Audit
pub mod Auth
pub mod Builds
pub mod Chunking
pub mod Crashes
pub mod Devices
pub mod Elf
pub mod Errors
pub mod Fleet
pub mod Grouping
pub mod Parser
pub mod Stack
pub mod Symbolication
pub mod Symbolizer
pub mod Symbols
pub mod Tables
pub mod Users
pub mod Worker
