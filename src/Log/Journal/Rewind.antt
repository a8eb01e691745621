-- ===== src/Log/Journal/Rewind.antt =====
-- `rewind_to` of log.rs: the compensations that undo the tail of a log.
use mathlib.Core.List.{map, map-append, reverse, reverse-cons}
use lean_rust_wasm.Prelude.{
  ℕ, ◌≡◌, refl, sym, ap, subst, ◌∙◌, List, [], ◌∷◌, ◌++◌, drop, take, false, Bool-cases, inl, inr,
  some, Result, ok, err, append-nil, append_assoc, take-drop, drop-min,
}
use lean_rust_wasm.Prelude.BTreeMap.{Key, same_key}
use lean_rust_wasm.Prelude.BTreeMap.Laws.{same_key→eq, same_key_refl}
use lean_rust_wasm.Row.{Schema}
use lean_rust_wasm.Delta.{Change, patch}
use lean_rust_wasm.Log.Errors.{DeltaError}
use lean_rust_wasm.Log.Schemas
use lean_rust_wasm.Log.Schemas.{SchemaSet}
use lean_rust_wasm.Log.Entry.{DeltaEntry}
use lean_rust_wasm.Log.Backend.{Backend, Laws}
use lean_rust_wasm.Log.Core.{States, table_or_new, patch_state, rebuild_entry, rebuild}
use lean_rust_wasm.Log.Core.State.{
  StatesValid, no_states-StatesValid, rebuild_entry-eq, table_or_new-patch_state,
}
use lean_rust_wasm.Log.Core.State.History.{
  Entered, History, rebuild_entry-StatesValid, rebuild-StatesValid,
}
use lean_rust_wasm.Log.Journal.{DeltaLog, append, state_at, compensation, compensate, rewind_to}
use lean_rust_wasm.Log.Journal.Append.{IsConsistent, states_valid, taken, append_ok}
use lean_rust_wasm.Log.Journal.Replay.{
  rebuild_entry-table, rebuild_append, History-split, state_at_lem,
}

-- Two states that hold the same tables, where a missing table stands for an empty one.
abbrev pub SameTables : States → States → Type 0
SameTables a b = (m : Key) → table_or_new a m ≡ table_or_new b m

left_of :
    (ss : SchemaSet) (before : States) (e : DeltaEntry)
    → StatesValid ss before
    → (h : Entered ss before e)
    → table_or_new (rebuild_entry ss before e) e.table
      ≡ patch h.schema (table_or_new before e.table) e.change
left_of ss before e v h =
    rebuild_entry-table ss before e e.table h.schema v.sorted h.found
    ∙ rw (same_key_refl e.table) refl

kept_of :
    (ss : SchemaSet) (before : States) (e : DeltaEntry) (m : Key)
    → StatesValid ss before
    → (h : Entered ss before e) → same_key m e.table ≡ false
    → table_or_new (rebuild_entry ss before e) m ≡ table_or_new before m
kept_of ss before e m v h miss =
    rw (rebuild_entry-eq ss before e h.schema h.found)
      (table_or_new-patch_state before e.table m h.schema e.change v.sorted ∙ rw miss refl)

-- The inverse of an entry, on states with the tables that the entry left, gives back those before it.
undone_tables :
    (ss : SchemaSet) (before now : States) (e : DeltaEntry)
    → StatesValid ss before
    → StatesValid ss now
    → (h : Entered ss before e) → SameTables now (rebuild_entry ss before e)
    → SameTables (patch_state now e.table h.schema e.inverse) before
undone_tables ss before now e vb vn h same m = elim (Bool-cases (same_key m e.table)) [
  | inl hit ↦
      let one : m ≡ e.table = same_key→eq m e.table hit in
      let left : table_or_new now e.table ≡ patch h.schema (table_or_new before e.table) e.change =
        same e.table ∙ left_of ss before e vb h in
      table_or_new-patch_state now e.table m h.schema e.inverse vn.sorted
      ∙ rw (hit, left, one) h.undone
  | inr miss ↦
      table_or_new-patch_state now e.table m h.schema e.inverse vn.sorted
      ∙ rw miss (same m ∙ kept_of ss before e m vb h miss)
]

module _ (B : Backend) where
  compensate-append :
      (log mid : DeltaLog B.Sink) (xs ys : List (List ℕ × Change))
      → compensate B log xs ≡ (ok tt, mid)
      → compensate B log (xs ++ ys) ≡ compensate B mid ys
  unfolding compensate
  compensate-append log mid [] ys h =
      ap (λ (q : Result DeltaError (Unit {0}) × DeltaLog B.Sink). compensate B q.1 ys) h
  compensate-append log mid (x ∷ xs) ys h =
      go (append B log x.0 x.1) h (λ l. compensate-append l mid xs ys)
    where
      go :
          (p : Result DeltaError ℕ × DeltaLog B.Sink)
          → ◌≡◌ {A = Result DeltaError (Unit {0}) × DeltaLog B.Sink}
              (elim p.0 as (λ _. Result DeltaError (Unit {0}) × DeltaLog B.Sink) [
                | err e ↦ (err e, p.1)
                | ok _ ↦ compensate B p.1 xs
              ])
              (ok tt, mid)
          → ((l : DeltaLog B.Sink)
              → compensate B l xs ≡ (ok tt, mid)
              → compensate B l (xs ++ ys) ≡ compensate B mid ys)
          → ◌≡◌ {A = Result DeltaError (Unit {0}) × DeltaLog B.Sink}
              (elim p.0 as (λ _. Result DeltaError (Unit {0}) × DeltaLog B.Sink) [
                | err e ↦ (err e, p.1)
                | ok _ ↦ compensate B p.1 (xs ++ ys)
              ])
              (compensate B mid ys)
      go (err e, l) k ih = cc
      go (ok n, l) k ih = ih l k

  -- The log after compensations: only longer, and with the tables of `before`.
  record Rewound (log : DeltaLog B.Sink) (before : States) (after : DeltaLog B.Sink) : Type 0 where
    consistent : IsConsistent after
    schemas_kept : after.schemas ≡ log.schemas
    tables : SameTables after.states before
    more : List DeltaEntry
    grown : after.entries ≡ log.entries ++ more

  module _ (L : Laws B) where
    compensate_one :
        (log : DeltaLog B.Sink) (before : States) (e : DeltaEntry)
        → IsConsistent log
        → StatesValid log.schemas before
        → Entered log.schemas before e
        → SameTables log.states (rebuild_entry log.schemas before e)
        → (after : DeltaLog B.Sink) × (compensate B log (compensation e ∷ []) ≡ (ok tt, after))
          × Rewound log before after
    unfolding compensate
    compensate_one log before e k vb h same =
        let (inv, sink, done, k', grown', prepared, hi) =
          append_ok B L log e.table h.schema e.inverse k h.found h.inverse in
        let entry : DeltaEntry = record { table = e.table; change = e.inverse; inverse = inv } in
        (
          taken log sink h.schema entry,
          ap
              (λ (q : Result DeltaError ℕ × DeltaLog B.Sink).
                elim q.0 as (λ _. Result DeltaError (Unit {0}) × DeltaLog B.Sink) [
                  | err x ↦ (err x, q.1)
                  | ok _ ↦ (ok tt, q.1)
                ])
              done,
          record {
            consistent = k';
            schemas_kept = refl;
            tables = undone_tables log.schemas before log.states e vb (states_valid log k) h same;
            more = entry ∷ [];
            grown = refl;
          },
        )

    compensate_tail :
        (log : DeltaLog B.Sink) (before : States) (es : List DeltaEntry)
        → IsConsistent log
        → StatesValid log.schemas before
        → History log.schemas before es
        → SameTables log.states (rebuild log.schemas before es)
        → (after : DeltaLog B.Sink) × (compensate B log (map compensation (reverse es))
            ≡ (ok tt, after))
          × Rewound log before after
    unfolding compensate rebuild
    compensate_tail log before [] k vb h same = (
      log,
      refl,
      record {
        consistent = k;
        schemas_kept = refl;
        tables = same;
        more = [];
        grown = sym (append-nil log.entries);
      },
    )
    compensate_tail log before (e ∷ es) k vb (h, hs) same =
        let (mid, first, r) =
          compensate_tail log (rebuild_entry log.schemas before e) es k
            (rebuild_entry-StatesValid log.schemas before e vb h) hs same in
        let (after, last, q) =
          compensate_one mid before e r.consistent
            (subst (λ ss. StatesValid ss before) (sym r.schemas_kept) vb)
            (subst (λ ss. Entered ss before e) (sym r.schemas_kept) h)
            (subst (λ ss. SameTables mid.states (rebuild_entry ss before e)) (sym r.schemas_kept)
              r.tables) in
        (
          after,
          ap (compensate B log) (
                ap (map compensation) (reverse-cons e es)
                ∙ map-append compensation (reverse es) (e ∷ []))
              ∙ compensate-append log mid (map compensation (reverse es)) (compensation e ∷ [])
                  first
              ∙ last,
          record {
            consistent = q.consistent;
            schemas_kept = q.schemas_kept ∙ r.schemas_kept;
            tables = q.tables;
            more = r.more ++ q.more;
            grown =
                q.grown ∙ ap (λ t. t ++ q.more) r.grown ∙ append_assoc log.entries r.more q.more;
          },
        )

    -- `rewind_to` of a consistent log over a sink that does not fail always answers `Ok`. The log stays
    -- consistent and only grows, and every registered table is then what `state_at` gave at `seq`.
    pub rewind_to-state_at :
        (log : DeltaLog B.Sink) (seq : ℕ) (table : Key) (s : Schema)
        → IsConsistent log
        → Schemas.get log.schemas table ≡ some s
        → (after : DeltaLog B.Sink) × (rewind_to B log seq ≡ (ok tt, after))
          × IsConsistent after
          × ((more : List DeltaEntry) × (after.entries ≡ log.entries ++ more))
          × (state_at log table seq ≡ some (table_or_new after.states table))
    unfolding rewind_to
    rewind_to-state_at log seq table s k f =
        let ss = log.schemas in
        let front = take seq log.entries in
        let back = drop seq log.entries in
        let (hf, hb) =
          History-split ss [] front back
            (subst (History ss []) (take-drop seq log.entries) k.history) in
        let whole : log.states ≡ rebuild ss (rebuild ss [] front) back =
          k.rebuilt
          ∙ ap (rebuild ss []) (take-drop seq log.entries)
          ∙ rebuild_append ss [] front back in
        let (after, done, r) =
          compensate_tail log (rebuild ss [] front) back k
            (rebuild-StatesValid ss [] front (no_states-StatesValid ss) hf) hb
            (λ m. ap (λ st. table_or_new st m) whole) in
        (
          after,
          rw drop-min done,
          r.consistent,
          (r.more, r.grown),
          state_at_lem log seq table s f ∙ ap some (sym (r.tables table)),
        )
