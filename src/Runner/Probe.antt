-- ===== src/Runner/Probe.antt =====
-- The replay of the manifest's rows on a component, main.rs: the drain of a stream, `replay_row`, and
-- the loop of `probe`.
use lean_rust_wasm.Prelude.{
  ℕ, zero, suc, ◌+◌, List, [], ◌∷◌, ◌++◌, Bool, Option, none, some, Result, err, ok, ◌>>=◌,
  if◌then◌else◌,
}
use lean_rust_wasm.Text.{Text, codes, same}
use lean_rust_wasm.Text.Decimal.{decimal}
use lean_rust_wasm.Text.Pieces.{join}
use lean_rust_wasm.Oracle.{full, Outcome, value, trapped, compare, Divergence, verdict}
use lean_rust_wasm.Oracle.Ser.{ser_val}
use lean_rust_wasm.Runner.{OracleFault, Row}
use lean_rust_wasm.Runner.Args.{Numbers, Arg, build_args}
use lean_rust_wasm.Runner.Cli.{CompareAs, as_rows, as_verdict}

pub record GatewayUser : Type 0 where
  pub id : ℕ
  pub name : Text
  pub email : Text
  pub tags : List Text

unfoldable pub render_user : GatewayUser → Text
render_user u =
    codes "{ id="
    ++ (decimal u.id
        ++ (codes ", name="
            ++ (u.name
                ++ (codes ", email="
                    ++ (u.email ++ (codes ", tags=(" ++ (join 44 u.tags ++ codes ") }")))))))

pub data Poll : Type 0 where
  pending completed dropped : Poll

module _ {A : Type 0} (render : A → Text) where
  abbrev pub rendered : List A → List Text
  rendered [] = []
  rendered (x ∷ xs) = render x ∷ rendered xs

  -- The items that a poll reads, and whether the stream finishes.
  unfoldable pub poll_consume : List Text → List A → Bool → Poll × List Text
  poll_consume out [] finish = if finish then (dropped, out) else (pending, out)
  poll_consume out (x ∷ xs) finish = (completed, out ++ rendered (x ∷ xs))

  abbrev pub drain_after : (List Text → List Text) → Poll × List Text → List Text
  drain_after later (dropped, out) = out
  drain_after later (pending, out) = later out
  drain_after later (completed, out) = later out

  -- The polls in turn, until the stream is dropped.
  unfoldable pub drain : List (List A × Bool) → List Text → List Text
  drain [] out = out
  drain ((buf, finish) ∷ polls) out = drain_after (drain polls) (poll_consume out buf finish)

-- The instantiated component and wasmtime's event loop: a call, and a stream call with what each poll
-- of its drain reads. Errors are displays.
pub record Component (p : Numbers) (Other : Type 0) : Type 1 where
  pub State : Type 0
  pub call : Text → List (Arg p Other) → State → Result Text (List (Arg p Other)) × State
  pub watch_counts : Text → List (Arg p Other) → State → Result Text (List (List ℕ × Bool)) × State
  pub watch_users :
      Text → List (Arg p Other) → State → Result Text (List (List GatewayUser × Bool)) × State
  pub display : p.Float → Text
  pub debug : Other → Text

pub data ProbeFault : Type 0 where
  args_fault : OracleFault → ProbeFault
  replay_fault : Text → ProbeFault

module _ (p : Numbers) (Other : Type 0) (c : Component p Other) where
  abbrev pub stream_outcome :
      {A : Type 0}
      → (A → Text)
      → Result Text (List (List A × Bool)) × c.State
      → Result Text Outcome × c.State
  stream_outcome render (err e, s) = (err e, s)
  stream_outcome render (ok polls, s) =
      (ok (value (codes "(" ++ (join 44 (drain render polls []) ++ codes ")"))), s)

  abbrev pub first_outcome : List (Arg p Other) → Outcome
  first_outcome [] = value (codes "?")
  first_outcome (v ∷ vs) = value (ser_val c.display c.debug v)

  abbrev pub call_outcome :
      Result Text (List (Arg p Other)) × c.State → Result Text Outcome × c.State
  call_outcome (err e, s) = (ok trapped, s)
  call_outcome (ok results, s) = (ok (first_outcome results), s)

  unfoldable pub replay_row : Text → List (Arg p Other) → c.State → Result Text Outcome × c.State
  replay_row f args s =
      let counts = stream_outcome decimal (c.watch_counts f args s) in
      let users = stream_outcome render_user (c.watch_users f args s) in
      let called = call_outcome (c.call f args s) in
      if same f (codes "watch-counts")
      then counts
      else if same f (codes "watch-users")
      then users
      else called

  abbrev pub verdict_failures : Option Divergence → ℕ
  verdict_failures none = 0
  verdict_failures (some d) = 1

  -- The failures that a row adds.
  unfoldable pub row_failures : CompareAs → Outcome → Outcome → ℕ
  row_failures as_rows expected got = if compare full expected got then 0 else 1
  row_failures as_verdict expected got = verdict_failures (verdict full expected got)

  abbrev pub probe_next :
      CompareAs
      → Text
      → (c.State → Result ProbeFault ℕ)
      → Result Text Outcome × c.State
      → Result ProbeFault ℕ
  probe_next mode expected later (err e, s) = err (replay_fault e)
  probe_next mode expected later (ok got, s) =
      later s >>= (λ n. ok (row_failures mode (value expected) got + n))

  abbrev pub probe_built :
      CompareAs
      → Row
      → (c.State → Result ProbeFault ℕ)
      → c.State
      → Result OracleFault (List (Arg p Other))
      → Result ProbeFault ℕ
  probe_built mode row later s (err fault) = err (args_fault fault)
  probe_built mode row later s (ok args) =
      probe_next mode row.expected later (replay_row row.f args s)

  -- The rows in turn, with the number of those that fail.
  unfoldable pub probe : CompareAs → List Row → c.State → Result ProbeFault ℕ
  probe mode [] s = ok 0
  probe mode (row ∷ rows) s =
      probe_built mode row (probe mode rows) s (build_args p Other row.f row.args)

  -- The exit code: an error of `main` exits with 1, too.
  abbrev pub exit_code : Result ProbeFault ℕ → ℕ
  exit_code (err e) = 1
  exit_code (ok zero) = 0
  exit_code (ok (suc n)) = 1
