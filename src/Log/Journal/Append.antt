-- ===== src/Log/Journal/Append.antt =====
-- `DeltaLog::append` of log.rs: what it leaves in the log and in the backend, on success and on error.
use lean_rust_wasm.Prelude.{
  ℕ, ◌≡◌, refl, sym, ap, subst, ◌∙◌, List, [], ◌∷◌, ◌++◌, length, All, some, Result, ok, err,
  append-nil, append_assoc,
}
use lean_rust_wasm.Prelude.BTreeMap.{Key}
use lean_rust_wasm.Codec.{IsU64}
use lean_rust_wasm.Row.{Schema}
use lean_rust_wasm.Delta.{Change}
use lean_rust_wasm.Delta.Keys.{ChangeHas}
use lean_rust_wasm.Log.Errors.{DeltaError}
use lean_rust_wasm.Log.Schemas
use lean_rust_wasm.Log.Schemas.{SchemaSet}
use lean_rust_wasm.Log.Entry.{DeltaEntry, enc_record}
use lean_rust_wasm.Log.Entry.RoundTrip.{IsText, EntryHas}
use lean_rust_wasm.Log.Backend.{Backend, Laws}
use lean_rust_wasm.Log.Core.{States, table_or_new, patch_state, rebuild, prepare}
use lean_rust_wasm.Log.Core.State.{
  StatesValid, no_states-StatesValid, rebuild_entry-eq, rebuild-append,
}
use lean_rust_wasm.Log.Core.State.History.{
  Entered, History, History-append, rebuild-StatesValid, prepare_ok,
}
use lean_rust_wasm.Log.Core.Scanning.{payload_of, record_of, journal, Writable}
use lean_rust_wasm.Log.Journal.{DeltaLog, commit, append, open_with}
use lean_rust_wasm.Log.Journal.Open.{open_with-journal}

-- The states are those of the entries, and each entry was computed over the states before it.
pub record IsConsistent {S : Type 0} (log : DeltaLog S) : Type 0 where
  pub rebuilt : log.states ≡ rebuild log.schemas [] log.entries
  pub history : History log.schemas [] log.entries

pub states_valid :
    {S : Type 0} (log : DeltaLog S) → IsConsistent log → StatesValid log.schemas log.states
states_valid log c =
    rw c.rebuilt
      (rebuild-StatesValid log.schemas [] log.entries (no_states-StatesValid log.schemas) c.history)

-- The log after an entry is taken up, over the sink that the write left.
abbrev pub taken : {S : Type 0} → DeltaLog S → S → Schema → DeltaEntry → DeltaLog S
taken log sink s e = record log {
  backend = sink;
  states = patch_state log.states e.table s e.change;
  entries = log.entries ++ (e ∷ []);
}

pub taken-IsConsistent :
    {S : Type 0} (log : DeltaLog S) (sink : S) (e : DeltaEntry)
    → IsConsistent log
    → (n : Entered log.schemas log.states e) → IsConsistent (taken log sink n.schema e)
taken-IsConsistent log sink e c n = record {
  rebuilt =
      sym (rebuild_entry-eq log.schemas log.states e n.schema n.found)
      ∙ ap (λ (st : States). lean_rust_wasm.Log.Core.rebuild_entry log.schemas st e) c.rebuilt
      ∙ sym (rebuild-append log.schemas [] log.entries e);
  history =
      History-append log.schemas [] log.entries e c.history
        (subst (λ st. Entered log.schemas st e) c.rebuilt n);
}

pub journal-append :
    (ss : SchemaSet) (es : List DeltaEntry) (e : DeltaEntry)
    → journal ss (es ++ (e ∷ [])) ≡ journal ss es ++ record_of ss e
unfolding journal
journal-append ss [] e = append-nil (record_of ss e)
journal-append ss (d ∷ es) e =
    ap (λ t. record_of ss d ++ t) (journal-append ss es e)
    ∙ sym (append_assoc (record_of ss d) (journal ss es) (record_of ss e))

pub All-append :
    {A : Type 0} (P : A → Type 0) (xs : List A) (x : A) → All P xs → P x → All P (xs ++ (x ∷ []))
All-append P [] x h p = (p, tt)
All-append P (y ∷ ys) x (h, hs) p = (h, All-append P ys x hs p)

module _ (B : Backend) where
  commit_failed :
      (log : DeltaLog B.Sink) (p : Schema × DeltaEntry × List ℕ) (x : DeltaError)
      → (commit B log p).0 ≡ err x
      → ((commit B log p).1.entries ≡ log.entries) × ((commit B log p).1.states ≡ log.states)
  unfolding commit
  commit_failed log (s, e, payload) x h =
      go (B.append log.backend (enc_record log.schemas payload)) h
    where
      outcome : Result DeltaError (Unit {0}) × B.Sink → Result DeltaError ℕ × DeltaLog B.Sink
      outcome q = elim q.0 as (λ _. Result DeltaError ℕ × DeltaLog B.Sink) [
        | err y ↦ (err y, record log { backend = q.1 })
        | ok u ↦ (ok (length log.entries), taken log q.1 s e)
      ]

      go :
          (q : Result DeltaError (Unit {0}) × B.Sink)
          → (outcome q).0 ≡ err x
          → ((outcome q).1.entries ≡ log.entries) × ((outcome q).1.states ≡ log.states)
      go (err y, sink) k = (refl, refl)
      go (ok u, sink) k = cc

  -- On every backend, an `append` that answers an error leaves the entries and the states as they were.
  pub append_failed :
      (log : DeltaLog B.Sink) (table : Key) (change : Change) (x : DeltaError)
      → (append B log table change).0 ≡ err x
      → ((append B log table change).1.entries ≡ log.entries)
        × ((append B log table change).1.states ≡ log.states)
  unfolding append
  append_failed log table change x h = go (prepare log.schemas log.states table change) h
    where
      outcome :
          Result DeltaError (Schema × DeltaEntry × List ℕ) → Result DeltaError ℕ × DeltaLog B.Sink
      outcome r = elim r as (λ _. Result DeltaError ℕ × DeltaLog B.Sink) [
        | err y ↦ (err y, log)
        | ok p ↦ commit B log p
      ]

      go :
          (r : Result DeltaError (Schema × DeltaEntry × List ℕ))
          → (outcome r).0 ≡ err x
          → ((outcome r).1.entries ≡ log.entries) × ((outcome r).1.states ≡ log.states)
      go (err y) k = (refl, refl)
      go (ok p) k = commit_failed log p x k

  commit_written :
      (log : DeltaLog B.Sink) (s : Schema) (e : DeltaEntry)
      → (p : Result DeltaError (Unit {0}) × B.Sink)
      → B.append log.backend (record_of log.schemas e) ≡ p
      → p.0 ≡ ok tt
      → commit B log (s, e, payload_of log.schemas e) ≡ (ok (length log.entries), taken log p.1 s e)
  unfolding commit record_of
  commit_written log s e (err x, sink) h k = cc
  commit_written log s e (ok u, sink) h k =
      rw (h, commit)
        (ap
          (λ (q : Result DeltaError (Unit {0}) × B.Sink).
            (Result.ok (length log.entries), taken log q.1 s e))
          h)

  module _ (L : Laws B) where
    open L use {contents, append_lem, load_lem}

    -- What `append` leaves on a sink that does not fail, when it prepared an entry.
    pub append_prepared :
        (log : DeltaLog B.Sink) (s : Schema) (e : DeltaEntry)
        → prepare log.schemas log.states e.table e.change ≡ ok (s, e, payload_of log.schemas e)
        → (sink : B.Sink) × (append B log e.table e.change
            ≡ (ok (length log.entries), taken log sink s e))
          × (contents sink ≡ contents log.backend ++ record_of log.schemas e)
    unfolding append
    append_prepared log s e prepared =
        let p = B.append log.backend (record_of log.schemas e) in
        let (fine, grown) = append_lem log.backend (record_of log.schemas e) in
        (p.1, rw (prepared, append) (commit_written log s e p refl fine), grown)

    -- An admitted change of a registered table is appended to a consistent log, which stays so: an
    -- entry with a change that undoes it, prepared from the current states.
    pub append_ok :
        (log : DeltaLog B.Sink) (table : Key) (s : Schema) (c : Change)
        → IsConsistent log
        → Schemas.get log.schemas table ≡ some s
        → ChangeHas s c
        → (inv : Change) × (sink : B.Sink) × (append B log table c ≡ (
          ok (length log.entries),
          taken log sink s (record { table = table; change = c; inverse = inv }),
        ))
          × IsConsistent (taken log sink s (record { table = table; change = c; inverse = inv }))
          × (contents sink
              ≡ contents log.backend
                ++ record_of log.schemas (record { table = table; change = c; inverse = inv }))
          × (prepare log.schemas log.states table c
              ≡ ok (
                s,
                record { table = table; change = c; inverse = inv },
                payload_of log.schemas (record { table = table; change = c; inverse = inv }),
              ))
          × ChangeHas s inv
    append_ok log table s c k f h =
        let (inv, prepared, n) =
          prepare_ok log.schemas log.states table s c (states_valid log k) f h in
        let same : n.schema ≡ s = cc (n.found, f) in
        let e : DeltaEntry = record { table = table; change = c; inverse = inv } in
        let (sink, done, grown) = append_prepared log s e prepared in
        (
          inv,
          sink,
          done,
          subst (λ q. IsConsistent (taken log sink q e)) same (taken-IsConsistent log sink e k n),
          grown,
          prepared,
          subst (λ q. ChangeHas q inv) same n.inverse,
        )

-- The journal holds the records of the entries, and nothing else.
pub record IsStored (B : Backend) (L : Laws B) (log : DeltaLog B.Sink) : Type 0 where
  pub writable : All (Writable log.schemas) log.entries
  pub kept : L.contents log.backend ≡ journal log.schemas log.entries

module _ (B : Backend) (L : Laws B) where
  taken-IsStored :
      (log : DeltaLog B.Sink) (sink : B.Sink) (s : Schema) (e : DeltaEntry)
      → IsStored B L log
      → Writable log.schemas e
      → L.contents sink ≡ L.contents log.backend ++ record_of log.schemas e
      → IsStored B L (taken log sink s e)
  taken-IsStored log sink s e d w grown = record {
    writable = All-append (Writable log.schemas) log.entries e d.writable w;
    kept =
        grown
        ∙ ap (λ t. t ++ record_of log.schemas e) d.kept
        ∙ sym (journal-append log.schemas log.entries e);
  }

  -- On a sink that does not fail, a stored, consistent log reopens as itself.
  pub reopened :
      (log : DeltaLog B.Sink)
      → IsConsistent log
      → IsStored B L log
      → open_with B log.backend log.schemas
        ≡ some (ok (record log { backend = (B.load log.backend).1 }))
  reopened log k d =
      open_with-journal B L log.backend log.schemas log.entries d.writable d.kept
      ∙ ap
          (λ (st : States). some (
            ok (record {
              backend = (B.load log.backend).1;
              schemas = log.schemas;
              entries = log.entries;
              states = st;
            })))
          (sym k.rebuilt)

  -- On a sink that does not fail, an admitted change of a registered table, with a name that a `String`
  -- can be and a payload whose length fits a u64, is appended durably to a consistent, stored log: the
  -- answer is the old length, the log has one entry more, which holds the change, it stays consistent
  -- and stored, and opening its backend gives that log back, the states included.
  pub append_durable :
      (log : DeltaLog B.Sink) (table : Key) (s : Schema) (c : Change)
      → IsConsistent log
      → IsStored B L log
      → Schemas.get log.schemas table ≡ some s
      → ChangeHas s c
      → IsText table
      → ((p : Schema × DeltaEntry × List ℕ)
          → prepare log.schemas log.states table c ≡ ok p
          → IsU64 (length p.2))
      → (after : DeltaLog B.Sink) × (append B log table c ≡ (ok (length log.entries), after))
        × ((inv : Change) × (after.entries
              ≡ log.entries ++ (record { table = table; change = c; inverse = inv } ∷ [])))
        × IsConsistent after
        × IsStored B L after
        × (open_with B after.backend log.schemas
            ≡ some (ok (record after { backend = (B.load after.backend).1 })))
  append_durable log table s c k d f h text fits =
      let (inv, sink, done, k', grown, prepared, hi) = append_ok B L log table s c k f h in
      let e : DeltaEntry = record { table = table; change = c; inverse = inv } in
      let has : EntryHas log.schemas e = record {
        text = text;
        schema = s;
        found = f;
        change = h;
        inverse = hi;
      } in
      let d' = taken-IsStored log sink s e d (has, fits _ prepared) grown in
      (taken log sink s e, done, (inv, refl), k', d', reopened (taken log sink s e) k' d')
