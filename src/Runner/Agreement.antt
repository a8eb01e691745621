-- ===== src/Runner/Agreement.antt =====
-- What the probe's count of failures says of the component, main.rs.
use mathlib.Core.Logic.{◌↔◌}
use lean_rust_wasm.Prelude.{
  ℕ, ◌+◌, ◌≡◌, refl, sym, ap, ◌∙◌, List, [], ◌∷◌, ◌++◌, Bool, true, false, Result, err, ok, ◌>>=◌,
  All, Bool-cases, inl, inr, arith, append_assoc, append-nil, subst,
}
use lean_rust_wasm.Text.{Text}
use lean_rust_wasm.Store.Verified.{ok_injective}
use lean_rust_wasm.Oracle.{full, Outcome, value, compare, verdict}
use lean_rust_wasm.Oracle.Compare.{compare-full}
use lean_rust_wasm.Runner.{OracleFault, Row}
use lean_rust_wasm.Runner.Args.{Numbers, Arg, build_args}
use lean_rust_wasm.Runner.Cli.{as_rows, as_verdict}
use lean_rust_wasm.Runner.Probe.{
  rendered, poll_consume, drain, Component, replay_row, row_failures, ProbeFault, probe, probe_next,
  probe_built,
}

ok_sum :
    (r : Result ProbeFault ℕ) (k : ℕ) → ((r >>= λ n. ok (k + n)) ≡ ok 0) ↔ ((k ≡ 0) × (r ≡ ok 0))
ok_sum (err e) k = (λ e. cc, λ e. cc)
ok_sum (ok n) k = (
  λ e. let sum : k + n ≡ 0 = ok_injective e in (omega (arith, sum), ap ok (omega (arith, sum))),
  λ (a, b). let none_left : n ≡ 0 = ok_injective b in ap ok (omega (arith, a, none_left)),
)

module _ (p : Numbers) (Other : Type 0) (c : Component p Other) where
  one_mode :
      (expected got : Outcome)
      → row_failures p Other c as_rows expected got ≡ row_failures p Other c as_verdict expected got
  unfolding row_failures verdict
  one_mode expected got = elim (Bool-cases (compare full expected got)) [
    | inl e ↦ rw e refl
    | inr e ↦ rw e refl
  ]

  same_next :
      (later again : c.State → Result ProbeFault ℕ) (text : Text)
      (r : Result Text Outcome × c.State)
      → ((s : c.State) → later s ≡ again s)
      → probe_next p Other c as_rows text later r ≡ probe_next p Other c as_verdict text again r
  same_next later again text (err e, s) same = refl
  same_next later again text (ok got, s) same = rw (same s, one_mode (value text) got) refl

  same_built :
      (row : Row) (rows : List Row) (s : c.State) (r : Result OracleFault (List (Arg p Other)))
      → ((t : c.State) → probe p Other c as_rows rows t ≡ probe p Other c as_verdict rows t)
      → probe_built p Other c as_rows row (probe p Other c as_rows rows) s r
        ≡ probe_built p Other c as_verdict row (probe p Other c as_verdict rows) s r
  same_built row rows s (err fault) same = refl
  same_built row rows s (ok args) same =
      same_next (probe p Other c as_rows rows) (probe p Other c as_verdict rows) row.expected
        (replay_row p Other c row.f args s) same

  -- Both comparisons count the same failures, and stop at the same fault.
  pub probe_modes :
      (rows : List Row) (s : c.State)
      → probe p Other c as_rows rows s ≡ probe p Other c as_verdict rows s
  unfolding probe
  probe_modes [] s = refl
  probe_modes (row ∷ rows) s =
      same_built row rows s (build_args p Other row.f row.args) (probe_modes rows)

  no_failure :
      (expected got : Outcome)
      → (row_failures p Other c as_rows expected got ≡ 0) ↔ (expected ≡ got)
  unfolding row_failures
  no_failure expected got =
      let equal = compare-full expected got in
      (
        λ e. elim (Bool-cases (compare full expected got)) [
          | inl passed ↦ equal.0 passed
          | inr failed ↦ let one : 1 ≡ 0 = rw failed at e in absurd (omega (arith, one))
        ],
        λ e. rw (equal.1 e) refl,
      )

  -- Every row has arguments that can be built, and the component answers each with the expected value.
  abbrev pub Agreed : List Row → c.State → Type 0
  Agreed [] s = Unit
  Agreed (row ∷ rows) s =
      (args : List (Arg p Other)) × (build_args p Other row.f row.args ≡ ok args)
      × ((replay_row p Other c row.f args s).0 ≡ ok (value row.expected))
      × Agreed rows (replay_row p Other c row.f args s).1

  next-Agreed :
      (text : Text) (rows : List Row) (r : Result Text Outcome × c.State)
      → ((t : c.State) → (probe p Other c as_rows rows t ≡ ok 0) ↔ Agreed rows t)
      → (probe_next p Other c as_rows text (probe p Other c as_rows rows) r ≡ ok 0)
        ↔ ((r.0 ≡ ok (value text)) × Agreed rows r.1)
  next-Agreed text rows (err e, s) ih = (λ e. cc, λ q. cc (q.0))
  next-Agreed text rows (ok got, s) ih =
      let sum =
        ok_sum (probe p Other c as_rows rows s) (row_failures p Other c as_rows (value text) got) in
      let row = no_failure (value text) got in
      (
        λ e.
            let (zero_here, zero_later) = sum.0 e in
            (ap ok (sym (row.0 zero_here)), (ih s).0 zero_later),
        λ q. sum.1 (row.1 (sym (ok_injective q.0)), (ih s).1 q.1),
      )

  built-Agreed :
      (row : Row) (rows : List Row) (s : c.State) (r : Result OracleFault (List (Arg p Other)))
      → ((t : c.State) → (probe p Other c as_rows rows t ≡ ok 0) ↔ Agreed rows t)
      → (probe_built p Other c as_rows row (probe p Other c as_rows rows) s r ≡ ok 0) ↔ (
          (args : List (Arg p Other)) × (r ≡ ok args)
          × ((replay_row p Other c row.f args s).0 ≡ ok (value row.expected))
          × Agreed rows (replay_row p Other c row.f args s).1)
  built-Agreed row rows s (err fault) ih = (λ e. cc, λ q. cc (q.1))
  built-Agreed row rows s (ok args) ih =
      let next = next-Agreed row.expected rows (replay_row p Other c row.f args s) ih in
      (
        λ e. let (here, later) = next.0 e in (args, refl, here, later),
        λ (other, same, here, later). next.1 (
            subst
              (λ a.
                ((replay_row p Other c row.f a s).0 ≡ ok (value row.expected))
                × Agreed rows (replay_row p Other c row.f a s).1)
              (sym (ok_injective same)) (here, later)),
      )

  -- The probe counts no failure exactly when every row has arguments that can be built and the
  -- component answers each, in turn, with the expected value.
  pub probe-Agreed :
      (rows : List Row) (s : c.State) → (probe p Other c as_rows rows s ≡ ok 0) ↔ Agreed rows s
  unfolding probe
  probe-Agreed [] s = (λ e. tt, λ a. refl)
  probe-Agreed (row ∷ rows) s =
      built-Agreed row rows s (build_args p Other row.f row.args) (probe-Agreed rows)

module _ {A : Type 0} (render : A → Text) where
  abbrev pub items : List (List A × Bool) → List A
  items [] = []
  items ((buf, finish) ∷ polls) = buf ++ items polls

  -- A poll that reads nothing is not the stream's end.
  abbrev pub StillOpen : List A × Bool → Type 0
  StillOpen ([], finish) = finish ≡ false
  StillOpen (x ∷ xs, finish) = Unit

  rendered-append :
      (xs ys : List A) → rendered render (xs ++ ys) ≡ rendered render xs ++ rendered render ys
  rendered-append [] ys = refl
  rendered-append (x ∷ xs) ys = ap (λ ts. render x ∷ ts) (rendered-append xs ys)

  -- A stream's items reach the sink in order, whatever its polls read at a time, and nothing after its
  -- end does.
  pub drain-items :
      (polls after : List (List A × Bool)) (out : List Text)
      → All StillOpen polls
      → drain render (polls ++ ([], true) ∷ after) out ≡ out ++ rendered render (items polls)
  unfolding drain poll_consume
  drain-items [] after out h = sym (append-nil out)
  drain-items (([], finish) ∷ polls) after out (none_read, h) =
      rw none_read (drain-items polls after out h)
  drain-items ((x ∷ xs, finish) ∷ polls) after out (none_read, h) =
      drain-items polls after (out ++ rendered render (x ∷ xs)) h
      ∙ append_assoc out (rendered render (x ∷ xs)) (rendered render (items polls))
      ∙ ap (λ ts. out ++ ts) (sym (rendered-append (x ∷ xs) (items polls)))
