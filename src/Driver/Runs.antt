-- ===== src/Driver/Runs.antt =====
-- A repository with one job, and the theorems on the driver at it.
use mathlib.Core.List.{map}
use lean_rust_wasm.Prelude.{
  ℕ, ◌≡◌, refl, List, [], ◌∷◌, ◌++◌, true, Option, none, some, ok, err, ok_or, if◌then◌else◌,
}
use lean_rust_wasm.Text.{Text, codes, same, lookup}
use lean_rust_wasm.Text.Pieces.{is_some}
use lean_rust_wasm.Lifecycle.Pipeline.{reflecting}
use lean_rust_wasm.Store.{
  OciStore, put, store_artifacts, blob_path, strip_header, strip_text, kept_lines, is_header_line,
  verify, digest_of,
}
use lean_rust_wasm.Store.Memory.{FileList, memory, memory-DiskLaws}
use lean_rust_wasm.Store.Index.{Files, load_tags, tag_of, open_store}
use lean_rust_wasm.Json.{Serde}
use lean_rust_wasm.Driver.{Job, Tools}
use lean_rust_wasm.Driver.Manifest.{
  job_from_value, load_items, load_jobs_of, load_jobs, strip_comments, truncation_class,
  unterminated_list, package_in,
}
use lean_rust_wasm.Driver.Drive.{
  lean_tc, repo_root, run_command, run_job, read_if_exists, generate_mode, check_output, pairs_of,
  drive,
}
use lean_rust_wasm.Driver.Tied.{check_output_missing}
use lean_rust_wasm.Driver.Exits.{
  drive-Clean, Ran, ran_none, ran_next, generate_mode-store_artifacts,
}

-- The values that a manifest needs.
data JsonValue : Type 0 where
  null : JsonValue
  text : Text → JsonValue
  texts : List Text → JsonValue
  object : Job → JsonValue
  array : List Job → JsonValue

abbrev as_text : JsonValue → Option Text
as_text (text t) = some t
as_text _ = none

abbrev elements : JsonValue → Option (List JsonValue)
elements (texts ts) = some (map text ts)
elements (array jobs) = some (map object jobs)
elements _ = none

abbrev fields : JsonValue → Option Job
fields (object job) = some job
fields _ = none

abbrev field : Job → Text → Option JsonValue
field job key =
    if same key (codes "package")
    then some (text job.package_name)
    else if same key (codes "exe")
    then some (text job.exe)
    else if same key (codes "args")
    then some (texts job.args)
    else if same key (codes "outputs")
    then some (texts job.outputs)
    else none

abbrev demo_job : Job
demo_job = record {
  package_name = codes "demo";
  exe = codes "schema";
  args = codes "gen" ∷ [];
  outputs = codes "a.rs" ∷ codes "b.rs" ∷ [];
}

-- A reader that knows one text.
abbrev serde : Serde
serde = record {
  Json = JsonValue;
  Fields = Job;
  as_str = as_text;
  as_array = elements;
  as_object = fields;
  get = field;
  index = λ v key. null;
  string = text;
  number = λ n. null;
  array = λ vs. null;
  object = λ members. null;
  to_string_pretty = λ v. err (codes "not written");
  from_str = λ t. none;
  stream = λ t. if same t (codes "[job]") then (array (demo_job ∷ []), 5) ∷ [] else [];
  stream_error = λ t. none;
}

abbrev files : Files memory
files = record {
  read_to_string = λ disk path. ok_or (lookup path disk) path;
  exists = λ disk path. is_some (lookup path disk);
  create_dir_all = λ disk path. ok disk;
  metadata_len = λ disk path. ok 0;
  read_dir = λ disk path. ok [];
  io_error = λ e. e;
}

abbrev generated_at : Text → List ℕ
generated_at time = codes "// " ++ (time ++ 10 ∷ (codes "fn one" ++ 10 ∷ []))

-- Every command succeeds, and writes one of the two outputs again.
abbrev tools : Tools memory
tools = record {
  env = λ name. lookup name ((codes "LEAN_TC", codes "tc") ∷ (codes "DEVENV_ROOT", codes "r") ∷ []);
  join_path = λ front behind. front ++ 47 ∷ behind;
  Status = Unit {0};
  success = λ status. true;
  status_text = λ status. [];
  spawn = λ command disk. (ok tt, (codes "r/a.rs", generated_at (codes "10:00")) ∷ disk);
  debug = λ ts. [];
}

abbrev disk : FileList
disk =
    (codes "r/generated/json/jobs_generated.json", codes "# GENERATED" ++ 10 ∷ codes "[job]")
    ∷ (codes "r/generated/json/faults_jobs_generated.json", codes "# GENERATED")
    ∷ (codes "r/a.rs", generated_at (codes "09:00"))
    ∷ []

abbrev oci : Text
oci = codes "r/cache/oci"

abbrev opened_disk : FileList
opened_disk =
    (oci ++ codes "/index.json", codes "{\"schemaVersion\":2,\"manifests\":[]}")
    ∷ (oci ++ codes "/oci-layout", codes "{\"imageLayoutVersion\":\"1.0.0\"}")
    ∷ disk

abbrev store : OciStore
store = record { root = oci; tags = [] }

toolchain_found : lean_tc memory files tools ≡ ok (codes "tc")
unfolding lean_tc
toolchain_found = refl

store_opens :
    open_store memory files serde disk
      (tools.join_path (repo_root memory files tools) (codes "cache/oci"))
    ≡ ok (store, opened_disk)
unfolding open_store load_tags repo_root tag_of
store_opens = refl

jobs_load :
    load_jobs memory files tools serde opened_disk (repo_root memory files tools)
    ≡ ok (demo_job ∷ [])
unfolding load_jobs load_jobs_of load_items job_from_value strip_comments repo_root
jobs_load = refl

abbrev later : FileList
later =
    (codes "r/a.rs", generated_at (codes "10:00"))
    ∷ (codes "r/a.rs", generated_at (codes "10:00"))
    ∷ opened_disk

demo_runs :
    run_job memory files tools (codes "tc") (codes "r") demo_job opened_disk ≡ (ok tt, later)
unfolding run_job run_command
demo_runs = refl

-- The second output is never there.
drive-Clean_example : drive memory files tools serde (codes "--check" ∷ []) disk ≡ 0
unfolding repo_root run_job run_command read_if_exists strip_header strip_text kept_lines
    is_header_line verify digest_of
drive-Clean_example =
    (drive-Clean memory files tools serde (codes "--check" ∷ []) disk opened_disk (codes "tc") store
        (demo_job ∷ []) toolchain_found store_opens jobs_load refl).1
      (refl, ((refl, refl), ((refl, refl), tt)), tt)

check_output_missing_example :
    check_output memory files tools (codes "tc") (codes "r") store later [] (codes "b.rs") none ≡ []
unfolding read_if_exists
check_output_missing_example =
    check_output_missing memory files tools (codes "tc") (codes "r") store opened_disk later []
      (codes "b.rs") refl refl

demo-Ran : Ran memory files tools (codes "tc") (codes "r") (demo_job ∷ []) opened_disk later
demo-Ran = ran_next demo_runs (ran_none later)

abbrev full_store : OciStore
full_store = record { root = oci; tags = (codes "a.rs", generated_at (codes "10:00")) ∷ [] }

abbrev full_disk : FileList
full_disk = (blob_path store (generated_at (codes "10:00")), generated_at (codes "10:00")) ∷ later

all_stored :
    store_artifacts memory store later
      (pairs_of memory files tools (codes "tc") (codes "r") later (demo_job ∷ []))
      []
    ≡ ok ((codes "a.rs", generated_at (codes "10:00")) ∷ [], (full_store, full_disk))
unfolding store_artifacts put pairs_of
all_stored = refl

generate_mode-store_artifacts_example :
    generate_mode memory files tools
      (codes "tc")
      (codes "r")
      true
      store
      opened_disk
      (demo_job ∷ [])
      reflecting
    ≡ ok tt
unfolding pairs_of
generate_mode-store_artifacts_example =
    generate_mode-store_artifacts memory files tools (codes "tc") (codes "r") memory-DiskLaws
      (λ x. Unit {0}) (λ x y a b e. e) store full_store opened_disk later full_disk (demo_job ∷ [])
      ((codes "a.rs", generated_at (codes "10:00")) ∷ []) demo-Ran all_stored
      ((λ digest. refl, λ x e. tt), tt) (tt, tt)

-- A manifest that is cut inside a list.
cut_in_args :
    truncation_class
      (codes "[{\"package\": \"demo\", \"args\": [\"gen\"")
      (codes "EOF while parsing a list")
    ≡ codes "unterminated args (demo)"
unfolding truncation_class unterminated_list package_in
cut_in_args = refl
