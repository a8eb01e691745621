-- ===== src/Lib.antt =====
-- The delta journal of the repository, crates/wasm-delta: an append-only log of typed changes to
-- keyed tables, with its wire codec, its inverse changes and its recovery from a crash. Beside it
-- stand the host's startup gate, which reads the committed snapshot of the schema universe and checks
-- it and the guest's exports against a contract; the standalone runtime of a guest; the content store
-- of the build tool; the circuits over streams; the comparison contract of the oracle, by which a
-- replay is judged, with the runner that replays; the driver of the build tool; and two state machines.
--
-- The parts and how they interact. A table has a schema, a list of typed fields of which the first
-- is the key. A change inserts, updates or removes a row. `append` of the log checks a change
-- against its schema, computes its inverse against the row that stands at the key, writes one
-- record to the backend, and only then takes the change up in the entries and in the states. A
-- record is an envelope (version, fingerprint of the schema set, payload), and its payload the
-- table, the change and the inverse. Opening a log scans the journal record by record, cuts a torn
-- tail off, and rebuilds the states. Rewinding appends the stored inverses, the last entry's first.
--
-- The host's side: the text of the snapshot becomes items (`parse_snapshot`), the items become entries
-- of a name and a number of flat arguments (`surface_entries`), and the entries are checked against
-- the canonical string of the contract (`check_contract`), which is also what the exports of a guest
-- are checked against (`verify_surface`). The oracle runner derives such a string from the rows of its
-- manifest, and replays the rows on a component. The driver of the build tool runs the generators, and
-- either puts what they wrote into the content store or compares it with what was there.
--
-- Files and sources, below crates/wasm-delta/src for Codec to Log:
--   Codec   codec.rs: varints, booleans, byte strings, envelopes. A slice is a list of numbers; an
--           encoder returns what the source appends to `out`.
--   Value   value.rs: the types, the values, zigzag, `enc_value`, `dec_value`, `value_ty_matches`.
--           A `Vec<Value>` inside a value is a list type of its own, `Values`.
--   Row     row.rs: fields, schemas, rows and key bytes.
--   Delta   delta.rs: `Change`, `Table`, `patch` and `invert`.
--   Log     log.rs: Errors has `DeltaError`; Schemas has `SchemaSet` and its fingerprint; Entry has
--           the payloads; Backend has the trait and its two sinks; Core has what does not touch the
--           backend (the scan, the states, `validate`, and `append` up to the write); Journal has
--           `DeltaLog` and its operations.
--   Oracle  generated/rust/oracle_mirror_generated.rs: the comparison of an outcome with the
--           oracle's, its tables, the category and the position of a difference; Ser has the texts.
--   Runner  crates/oracle-runner/src/main.rs: Rows has the manifest, Args the flat arguments, Cli the
--           command line, Probe the replay of the rows, and Main the subcommands.
--   Driver  crates/forge/src/main.rs: Manifest has the jobs, and Drive the commands and the two modes.
--   Host    crates/guestlang-host/src/lib.rs and runtime.rs: the capability set, and the runtime.
--   Domain  generated/rust/schema_generated.rs, delta_generated.rs, invariants_generated.rs and
--           updates_generated.rs; Typestate is order_typestate_generated.rs.
--   Json    what Runner, Driver and Store take from serde_json.
--   Circuit generated/rust/circuit_generated.rs: the circuits over streams and their evaluator.
--   Lifecycle  generated/rust/order_machine_generated.rs and pipeline_generated.rs: the steps of the
--           two machines, and their runs as a relation.
--   Text    the operations of `str` that the sources below use, and decimal numbers.
--   Hostgen crates/guestlang-host/src/hostgen.rs: the types, items and the parser of a type; Lines has
--           the parser of the lines, and Contract the universe, the contract check and the startup
--           gate. Writer is the writer of lean/schema-lang/SchemaLang/Snapshot.lean, the reference:
--           a function's semantics has a line only when it is not the default, so that Normal has the
--           items as a text keeps them, with each default semantics left out.
--   Surface crates/guestlang-host/src/schema.rs: the canonical string and `verify_surface`.
--   Guest   crates/guestlang-rt/src/lib.rs: `Runtime` and `Snapshot`.
--   Store   crates/forge/src/oci.rs: `OciStore`, `Verify` and `store_artifacts`; Index has `open`, and
--           Written `write_index`; Laws has what serde_json and the file system document.
--   Prelude the shared names, tests, lists, results, integers, bits, and `BTreeMap` as a sorted
--           list of keys with values.
--   Samples and the modules named Runs hold concrete data and tests.
--
-- Numbers. A u64 is a natural number below 2 ^ 64, an i64 an integer in range (in Circuit, where
-- sums wrap, its 64 bits as a number); casts, shifts and wrapping products have the remainder
-- written out. A text is the list of its code points, and the UTF-8 bytes that the fingerprint
-- takes of it are computed. A `&mut self` method takes the state and returns its result with the
-- state that it leaves, errors included.
--
-- Bounds and fuel. `scan` has one round for each byte of the journal: a record takes at least one
-- byte, so these are enough. `enc_varnat` recurses on the order of the numbers; every other recursion
-- is structural. `parse_ty_at` recurses on MAX_TY_DEPTH + 1 less the depth, at whose end the source
-- answers an error too; the loop over a tensor's dimensions has a round for each character; twenty
-- digits hold every 64-bit number. A feedback of a circuit has a round for each tick up to the one
-- asked for, since each round asks for earlier ticks alone.
--
-- The files of the operating system are no part of the repository. The log is stated over any
-- `Backend`, and what it needs of a sink that does not fail are the three laws of `Backend.Laws`,
-- which the memory sink satisfies. The file sink stands over a parameter, `Backend.File.File`, with
-- the calls of `std::fs::File`, and over their documented behaviour, `FileLaws`. The file sink has
-- no law for an append behind a truncation, since the cursor stays where it was.
--
-- What is not the repository's on the other parts is a parameter too: the interpreter wasmi
-- (`Guest.Interpreter`, with `MemoryLaws`), the file system, the digest and the conversions of
-- texts (`Store.Platform`, with `DiskLaws`, and `Store.Index.Files`, with `FilesLaws`), the
-- environment and the commands (`Driver.Tools`), serde_json (`Json.Serde`, with `JsonLaws`), a
-- component in its event loop (`Runner.Probe.Component`), wasmtime (`Host.Runtime.Wasmtime`),
-- and the Unicode test `char::is_uppercase`. What the tools only print is left out.
--
-- Not modelled: the texts of errors where nothing reads them, the getters, the spans of a call and the
-- configuration of the engine in the host, its bindings, and the generated tables of constants and
-- random values.
pub mod Prelude
pub mod Codec
pub mod Value
pub mod Row
pub mod Delta
pub mod Log
pub mod Oracle
pub mod Lifecycle
pub mod Hostgen
pub mod Surface
pub mod Store
pub mod Circuit
pub mod Json
pub mod Driver
pub mod Runner
pub mod Host
pub mod Domain
pub mod Guest
pub mod Samples
pub mod Text
