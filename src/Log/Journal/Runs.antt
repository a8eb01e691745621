-- ===== src/Log/Journal/Runs.antt =====
-- The theorems on logs of log.rs at concrete inputs: a memory sink, a log with one entry.
use lean_rust_wasm.Prelude.{
  ℕ, ◌≡◌, ◌≢◌, refl, List, [], ◌∷◌, ◌++◌, length, inl, some, none, ok, err, arith,
}
use lean_rust_wasm.Codec.{IsU64}
use lean_rust_wasm.Value.{Value}
use lean_rust_wasm.Value.HasTy.{HasTy}
use lean_rust_wasm.Row.{Schema}
use lean_rust_wasm.Prelude.{subst}
use lean_rust_wasm.Prelude.BTreeMap
use lean_rust_wasm.Codec.{enc_varnat, enc_bytes, enc_bool, enc_envelope}
use lean_rust_wasm.Value.{enc_value, enc_chars, value_ty_matches}
use lean_rust_wasm.Row.{enc_key, enc_row, enc_fields, row_key_bytes, check, all_typed}
use lean_rust_wasm.Delta.{tag, patch, key_bytes, invert}
use lean_rust_wasm.Prelude.{◌+◌, ◌-◌, drop, take}
use lean_rust_wasm.Log.Backend.File
use lean_rust_wasm.Log.Backend.File.{File, FileLaws, fs_backend, zeros}
use lean_rust_wasm.Log.Journal.Hole.{recovery-append_lost}
use lean_rust_wasm.Log.Core.{rebuild, validate, row_before, payload_or}
use lean_rust_wasm.Log.Entry.{enc_record, enc_string, enc_change}
use lean_rust_wasm.Delta.{Change}
use lean_rust_wasm.Log.Schemas
use lean_rust_wasm.Log.Schemas.{fingerprint}
use lean_rust_wasm.Log.Entry.{DeltaEntry, enc_entry_payload}
use lean_rust_wasm.Log.Entry.RoundTrip.{IsText, EntryHas}
use lean_rust_wasm.Log.Errors.{DeltaError}
use lean_rust_wasm.Log.Backend.{MemBackend, mem_backend, mem_backend_laws}
use lean_rust_wasm.Log.Core.{table_or_new, prepare}
use lean_rust_wasm.Log.Core.Scanning.{Writable, record_of, journal, payload_of}
use lean_rust_wasm.Log.Core.State.History.{Entered}
use lean_rust_wasm.Log.Journal.{replay, DeltaLog, opened, open_with, append, rewind_to, state_at}
use lean_rust_wasm.Log.Journal.Open.{open_with_total, open_with-journal, open_with_torn}
use lean_rust_wasm.Log.Journal.Append.{IsConsistent, IsStored, append_durable, append_failed}
use lean_rust_wasm.Log.Journal.Rewind.{rewind_to-state_at}
use lean_rust_wasm.Log.Journal.Replay.{rebuild-replay}
use lean_rust_wasm.Samples.{
  users, id_field, table_name, schema_set, insert_on, insert_on-ChangeHas, users_found,
}

abbrev one_entry : DeltaEntry
one_entry = record { table = table_name; change = insert_on; inverse = Change.remove (Value.u64 7) }

abbrev one_record : List ℕ
one_record = record_of schema_set one_entry

t-IsText : IsText table_name
t-IsText = ((inl (omega arith), tt), omega arith)

one_entry-EntryHas : EntryHas schema_set one_entry
one_entry-EntryHas = record {
  text = t-IsText;
  schema = users;
  found = users_found;
  change = insert_on-ChangeHas;
  inverse = (id_field, refl, HasTy.u64 7 (omega arith));
}

abbrev rest_of_record : List ℕ
rest_of_record =
    214 ∷ 182 ∷ 217 ∷ 149 ∷ 197 ∷ 202 ∷ 222 ∷ 218 ∷ 1 ∷ 7 ∷ 1 ∷ 116 ∷ 0 ∷ 7 ∷ 1 ∷ 2 ∷ 7 ∷ []

one_record_bytes : one_record ≡ (1 ∷ []) ++ (135 ∷ rest_of_record)
unfolding record_of enc_record enc_envelope fingerprint Schemas.mix_tables Schemas.mix_fields
    Schemas.mix Schemas.mix_byte Schemas.as_bytes Schemas.utf8 Schemas.enc_ty_tag enc_entry_payload
    enc_string enc_change enc_key enc_row enc_fields enc_value enc_chars enc_bool tag enc_varnat
    enc_bytes Schemas.get BTreeMap.get BTreeMap.lex value_ty_matches
one_record_bytes = refl

one_payload_bytes : payload_of schema_set one_entry ≡ 1 ∷ 116 ∷ 0 ∷ 7 ∷ 1 ∷ 2 ∷ 7 ∷ []
unfolding enc_entry_payload enc_string enc_change enc_key enc_row enc_fields enc_value enc_chars
    enc_bool tag enc_varnat enc_bytes Schemas.get BTreeMap.get BTreeMap.lex value_ty_matches
one_payload_bytes = refl

one_entry-Writable : Writable schema_set one_entry
one_entry-Writable = (one_entry-EntryHas, rw one_payload_bytes (omega arith))

-- A sink with the one record, and a sink with the record and a piece of a second.
abbrev whole_sink : MemBackend
whole_sink = record { bytes = journal schema_set (one_entry ∷ []) }

abbrev torn_sink : MemBackend
torn_sink = record { bytes = journal schema_set (one_entry ∷ []) ++ (1 ∷ []) }

abbrev one_log : DeltaLog MemBackend
one_log = opened whole_sink schema_set (one_entry ∷ [])

open_with_total_example : open_with mem_backend torn_sink schema_set ≢ none
open_with_total_example = open_with_total mem_backend torn_sink schema_set

open_with-journal_example : open_with mem_backend whole_sink schema_set ≡ some (ok one_log)
open_with-journal_example =
    open_with-journal mem_backend mem_backend_laws whole_sink schema_set (one_entry ∷ [])
      (one_entry-Writable, tt) refl

open_with_torn_example :
    (sink : MemBackend) × (open_with mem_backend torn_sink schema_set
      ≡ some (ok (opened sink schema_set (one_entry ∷ []))))
    × (sink.bytes ≡ journal schema_set (one_entry ∷ []))
open_with_torn_example =
    open_with_torn mem_backend mem_backend_laws torn_sink schema_set (one_entry ∷ []) one_entry 1 []
      135 rest_of_record (one_entry-Writable, tt) one_entry-Writable one_record_bytes refl

one_entry-Entered : Entered schema_set [] one_entry
unfolding patch table_or_new key_bytes row_key_bytes enc_key enc_value enc_varnat BTreeMap.get
    BTreeMap.insert BTreeMap.remove BTreeMap.lex value_ty_matches
one_entry-Entered = record {
  schema = users;
  found = users_found;
  change = insert_on-ChangeHas;
  inverse = (id_field, refl, HasTy.u64 7 (omega arith));
  undone = refl;
}

one_log-IsConsistent : IsConsistent one_log
one_log-IsConsistent = record { rebuilt = refl; history = (one_entry-Entered, tt) }

one_log-IsStored : IsStored mem_backend mem_backend_laws one_log
one_log-IsStored = record { writable = (one_entry-Writable, tt); kept = refl }

rewind_to-state_at_example :
    (after : DeltaLog MemBackend) × (rewind_to mem_backend one_log 0 ≡ (ok tt, after))
    × IsConsistent after
    × ((more : List DeltaEntry) × (after.entries ≡ (one_entry ∷ []) ++ more))
    × (state_at one_log table_name 0 ≡ some (table_or_new after.states table_name))
rewind_to-state_at_example =
    rewind_to-state_at mem_backend mem_backend_laws one_log 0 table_name users one_log-IsConsistent
      users_found

abbrev no_log : DeltaLog MemBackend
no_log = opened (record { bytes = [] }) schema_set []

no_log-IsConsistent : IsConsistent no_log
no_log-IsConsistent = record { rebuilt = refl; history = tt }

no_log-IsStored : IsStored mem_backend mem_backend_laws no_log
unfolding journal
no_log-IsStored = record { writable = tt; kept = refl }

abbrev first_prepared : Schema × DeltaEntry × List ℕ
first_prepared = (users, one_entry, payload_of schema_set one_entry)

first_prepare : prepare schema_set [] table_name insert_on ≡ ok first_prepared
unfolding prepare validate row_before payload_or invert check all_typed key_bytes row_key_bytes
    enc_entry_payload enc_string enc_change enc_key enc_row enc_fields enc_value enc_chars enc_bool
    tag enc_varnat enc_bytes Schemas.get BTreeMap.get BTreeMap.lex value_ty_matches
first_prepare = refl

first_fits :
    (p : Schema × DeltaEntry × List ℕ)
    → prepare schema_set [] table_name insert_on ≡ ok p
    → IsU64 (length p.2)
first_fits p e =
    let same : first_prepared ≡ p = cc (e, first_prepare) in
    subst (λ (q : Schema × DeltaEntry × List ℕ). IsU64 (length q.2)) same one_entry-Writable.1

append_durable_example :
    (after : DeltaLog MemBackend) × (append mem_backend no_log table_name insert_on ≡ (ok 0, after))
    × ((inv : Change) × (after.entries
          ≡ record { table = table_name; change = insert_on; inverse = inv } ∷ []))
    × IsConsistent after
    × IsStored mem_backend mem_backend_laws after
    × (open_with mem_backend after.backend schema_set ≡ some (ok after))
unfolding rebuild
append_durable_example =
    append_durable mem_backend mem_backend_laws no_log table_name users insert_on
      no_log-IsConsistent no_log-IsStored users_found insert_on-ChangeHas t-IsText first_fits

unknown : (append mem_backend no_log [] insert_on).0 ≡ err (DeltaError.unknown_table [])
unfolding append prepare Schemas.get BTreeMap.get BTreeMap.lex
unknown = refl

append_failed_example :
    ((append mem_backend no_log [] insert_on).1.entries ≡ [])
    × ((append mem_backend no_log [] insert_on).1.states ≡ no_log.states)
append_failed_example =
    append_failed mem_backend no_log [] insert_on (DeltaError.unknown_table []) unknown

-- The entry's change, of a table that no schema is registered for.
abbrev stray_entry : DeltaEntry
stray_entry = record { table = []; change = one_entry.change; inverse = one_entry.inverse }

rebuild-replay_example :
    table_or_new (rebuild schema_set [] (stray_entry ∷ one_entry ∷ [])) table_name
    ≡ replay table_name users (table_or_new [] table_name) (stray_entry ∷ one_entry ∷ [])
rebuild-replay_example =
    rebuild-replay schema_set [] (stray_entry ∷ one_entry ∷ []) table_name users tt users_found

-- A file as its bytes and its cursor.
record MemFile : Type 0 where
  bytes : List ℕ
  cursor : ℕ

abbrev mem_file : File
mem_file = record {
  Handle = MemFile;
  seek_start = λ h n. (ok n, record h { cursor = n });
  read_to_end = λ h. (ok (drop h.cursor h.bytes), record h { cursor = length h.bytes });
  write_all = λ h r. (
    ok tt,
    record {
      bytes = h.bytes ++ (zeros (h.cursor - length h.bytes) ++ r);
      cursor = h.cursor + length r;
    },
  );
  set_len = λ h n. (ok tt, record h { bytes = take n h.bytes });
  sync_data = λ h. (ok tt, h);
}

abbrev mem_file_laws : FileLaws mem_file
mem_file_laws = record {
  bytes = λ h. h.bytes;
  cursor = λ h. h.cursor;
  seek_lem = λ h n. (refl, refl, refl);
  read_lem = λ h le. (refl, refl, refl);
  write_lem = λ h r le. (refl, refl, refl);
  set_len_lem = λ h n le. (refl, refl, refl);
  sync_lem = λ h. (refl, refl, refl);
}

abbrev torn_file : MemFile
torn_file = record {
  bytes = journal schema_set (one_entry ∷ []) ++ (1 ∷ 135 ∷ 214 ∷ []);
  cursor = 0;
}

abbrev one_len : ℕ
one_len = length (journal schema_set (one_entry ∷ []))

abbrev recovered : MemFile
recovered = (File.truncate mem_file (File.load mem_file torn_file).1 one_len).1

recovery-append_lost_example :
    ((File.append mem_file recovered one_record).0 ≡ ok tt)
    × (open_with (fs_backend mem_file) (File.append mem_file recovered one_record).1 schema_set
        ≡ some (err (DeltaError.wrong_version one_len 0)))
recovery-append_lost_example =
    recovery-append_lost mem_file mem_file_laws torn_file schema_set (one_entry ∷ [])
      (1 ∷ 135 ∷ 214 ∷ []) one_record (one_entry-Writable, tt) refl (omega arith)
