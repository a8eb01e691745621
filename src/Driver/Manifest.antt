-- ===== src/Driver/Manifest.antt =====
-- The job manifests, `load_jobs` of main.rs: comment lines are cut, serde_json reads the values, and
-- a broken tail is classified by its text.
use lean_rust_wasm.Prelude.{
  ℕ, List, [], ◌∷◌, ◌++◌, Bool, Option, none, some, Result, err, ok, ◌>>=◌, ok_or, if◌then◌else◌,
}
use lean_rust_wasm.Text.{Text, codes, every, past}
use lean_rust_wasm.Text.Cuts.{differs}
use lean_rust_wasm.Text.Pieces.{after, until, split_once, is_some, first_some, join, from_byte}
use lean_rust_wasm.Surface.{filter_map}
use lean_rust_wasm.Store.{Platform, starts_with, lines}
use lean_rust_wasm.Store.Index.{Files}
use lean_rust_wasm.Json.{Serde}
use lean_rust_wasm.Driver.{ForgeFault, manifest_fault, Job, Tools}

-- A key in quotes, with what follows it.
abbrev pub quoted : Text → Text → Text
quoted key behind = 34 ∷ (key ++ 34 ∷ (58 ∷ (32 ∷ behind)))

abbrev pub or_unknown : Option (Text × Text) → Text
or_unknown none = codes "?"
or_unknown (some (name, behind)) = name

abbrev pub name_in : Option Text → Text
name_in none = codes "?"
name_in (some rest) = or_unknown (split_once 34 (until (quoted (codes "package") (34 ∷ [])) rest))

-- The owning job's package.
unfoldable pub package_in : Text → Text
package_in tail = name_in (after (quoted (codes "package") (34 ∷ [])) tail)

abbrev pub unclosed : Text → Text → Option Text → Option Text
unclosed key tail none = none
unclosed key tail (some rest) =
    if every (differs 93) rest
    then some (codes "unterminated " ++ (key ++ (codes " (" ++ (package_in tail ++ codes ")"))))
    else none

unfoldable pub unterminated_list : Text → Text → Option Text
unterminated_list key tail = unclosed key tail (after (quoted key (91 ∷ [])) tail)

abbrev pub last_class : Text → Text → Text
last_class tail error =
    if is_some (after (quoted (codes "outputs") (34 ∷ [])) tail)
    then codes "job missing outputs (" ++ (package_in tail ++ codes ")")
    else if is_some (after (codes "EOF while parsing a string") error)
    then codes "unterminated string"
    else codes "truncated manifest (" ++ (error ++ codes ")")

abbrev pub or_class : Option Text → Text → Text
or_class (some class) later = class
or_class none later = later

unfoldable pub truncation_class : Text → Text → Text
truncation_class tail error =
    or_class
      (first_some (unterminated_list (codes "args") tail)
        (unterminated_list (codes "outputs") tail))
      (last_class tail error)

-- `unwrap_or("")`
abbrev pub or_blank : Option Text → Text
or_blank none = []
or_blank (some t) = t

module _ (j : Serde) (manifest : Text) where
  abbrev pub complain : Text → ForgeFault
  complain what = manifest_fault (manifest ++ (codes ": " ++ what))

  abbrev pub view {ℓ} : {A : Type ℓ} → (j.Json → Option A) → Option j.Json → Option A
  view as_a none = none
  view as_a (some v) = as_a v

  abbrev pub string_field : j.Fields → Text → Result ForgeFault Text
  string_field obj key =
      ok_or (view j.as_str (j.get obj key)) (complain (codes "job missing `" ++ (key ++ codes "`")))

  abbrev pub strings : List j.Json → List Text
  strings vs = filter_map j.as_str vs

  -- `unwrap_or_default`
  abbrev pub optional_list : Option (List j.Json) → List Text
  optional_list none = []
  optional_list (some vs) = strings vs

  abbrev pub required_list : Text → Option (List j.Json) → Result ForgeFault (List Text)
  required_list package_name none =
      err (complain (codes "job missing outputs (" ++ (package_name ++ codes ")")))
  required_list package_name (some vs) = ok (strings vs)

  abbrev pub job_from_fields : j.Fields → Result ForgeFault Job
  job_from_fields obj = do
    package_name ← string_field obj (codes "package")
    exe ← string_field obj (codes "exe")
    outputs ← required_list package_name (view j.as_array (j.get obj (codes "outputs")))
    ok (record {
      package_name = package_name;
      exe = exe;
      args = optional_list (view j.as_array (j.get obj (codes "args")));
      outputs = outputs;
    })

  unfoldable pub job_from_value : j.Json → Result ForgeFault Job
  job_from_value value = do
    obj ← ok_or (j.as_object value) (complain (codes "job is not an object"))
    job_from_fields obj

  abbrev pub jobs_of_elements : List j.Json → Result ForgeFault (List Job)
  jobs_of_elements [] = ok []
  jobs_of_elements (v ∷ vs) = do job ← job_from_value v; jobs ← jobs_of_elements vs; ok (job ∷ jobs)

  -- An array of jobs, or a job by itself.
  abbrev pub jobs_of_view : j.Json → Option (List j.Json) → Result ForgeFault (List Job)
  jobs_of_view value none = jobs_of_elements (value ∷ [])
  jobs_of_view value (some elements) = jobs_of_elements elements

  -- The loop over the values; `consumed` is the byte offset behind the last one.
  unfoldable pub load_items :
      Text → ℕ → List (j.Json × ℕ) → Option Text → Result ForgeFault (List Job)
  load_items json consumed [] none = ok []
  load_items json consumed [] (some error) =
      err (complain (truncation_class (or_blank (from_byte consumed json)) error))
  load_items json consumed ((value, offset) ∷ items) ending = do
    front ← jobs_of_view value (j.as_array value)
    jobs ← load_items json offset items ending
    ok (front ++ jobs)

abbrev pub drop_comments : (ℕ → Bool) → List Text → List Text
drop_comments is_whitespace [] = []
drop_comments is_whitespace (l ∷ ls) =
    let rest = drop_comments is_whitespace ls in
    if starts_with (past is_whitespace l) (codes "#") then rest else l ∷ rest

unfoldable pub strip_comments : (ℕ → Bool) → Text → Text
strip_comments is_whitespace raw = join 10 (drop_comments is_whitespace (lines raw))

abbrev pub or_io : {A : Type 0} → Text → Result Text A → Result ForgeFault A
or_io what (err io) = err (manifest_fault (what ++ (codes ": " ++ io)))
or_io what (ok a) = ok a

abbrev pub manifests : List Text
manifests =
    codes "generated/json/jobs_generated.json"
    ∷ codes "generated/json/faults_jobs_generated.json"
    ∷ []

module _ (h : Platform) (f : Files h) (o : Tools h) (j : Serde) where
  unfoldable pub load_jobs_of : h.Disk → Text → Text → Result ForgeFault (List Job)
  load_jobs_of disk root manifest = do
    raw ← or_io manifest (f.read_to_string disk (o.join_path root manifest))
    let json = strip_comments h.is_whitespace raw in
        load_items j manifest json 0 (j.stream json) (j.stream_error json)

  abbrev pub load_all : h.Disk → Text → List Text → Result ForgeFault (List Job)
  load_all disk root [] = ok []
  load_all disk root (m ∷ ms) = do
    front ← load_jobs_of disk root m
    jobs ← load_all disk root ms
    ok (front ++ jobs)

  abbrev pub some_jobs : List Job → Result ForgeFault (List Job)
  some_jobs [] =
      err (manifest_fault (codes "job manifests parsed to ZERO jobs — regenerate (just gen)"))
  some_jobs (job ∷ jobs) = ok (job ∷ jobs)

  unfoldable pub load_jobs : h.Disk → Text → Result ForgeFault (List Job)
  load_jobs disk root = load_all disk root manifests >>= some_jobs
