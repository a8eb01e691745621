-- ===== src/Log/Backend/File.antt =====
-- The file sink of log.rs, `FsBackend`, over the operations of `std::fs::File` that it calls. These
-- are parameters, and what is relied on of them is the documented behaviour of a file with a cursor.
use lean_rust_wasm.Prelude.{
  ℕ, zero, suc, ◌+◌, ◌-◌, ◌≡◌, ◌≤◌, refl, ap, ◌∙◌, List, [], ◌∷◌, ◌++◌, length, drop, take, Result,
  ok, err, arith,
}
use lean_rust_wasm.Log.Errors.{DeltaError}
use lean_rust_wasm.Log.Backend.{Backend}

-- The calls, with their errors as `DeltaError` makes of them.
pub record File : Type 1 where
  pub Handle : Type 0
  pub seek_start : Handle → ℕ → Result DeltaError ℕ × Handle
  pub read_to_end : Handle → Result DeltaError (List ℕ) × Handle
  pub write_all : Handle → List ℕ → Result DeltaError (Unit {0}) × Handle
  pub set_len : Handle → ℕ → Result DeltaError (Unit {0}) × Handle
  pub sync_data : Handle → Result DeltaError (Unit {0}) × Handle

abbrev pub zeros : ℕ → List ℕ
zeros zero = []
zeros (suc n) = 0 ∷ zeros n

-- A file that does not fail: its bytes and the place of its cursor. A write past the end fills the
-- gap with zeros, and a change of the length leaves the cursor where it is.
pub record FileLaws (F : File) : Type 1 where
  pub bytes : F.Handle → List ℕ
  pub cursor : F.Handle → ℕ
  pub seek_lem :
      (h : F.Handle) (n : ℕ)
      → ((F.seek_start h n).0 ≡ ok n)
        × (bytes (F.seek_start h n).1 ≡ bytes h)
        × (cursor (F.seek_start h n).1 ≡ n)
  pub read_lem :
      (h : F.Handle)
      → cursor h ≤ length (bytes h)
      → ((F.read_to_end h).0 ≡ ok (drop (cursor h) (bytes h)))
        × (bytes (F.read_to_end h).1 ≡ bytes h)
        × (cursor (F.read_to_end h).1 ≡ length (bytes h))
  pub write_lem :
      (h : F.Handle) (r : List ℕ)
      → length (bytes h) ≤ cursor h
      → ((F.write_all h r).0 ≡ ok tt)
        × (bytes (F.write_all h r).1 ≡ bytes h ++ (zeros (cursor h - length (bytes h)) ++ r))
        × (cursor (F.write_all h r).1 ≡ cursor h + length r)
  pub set_len_lem :
      (h : F.Handle) (n : ℕ)
      → n ≤ length (bytes h)
      → ((F.set_len h n).0 ≡ ok tt)
        × (bytes (F.set_len h n).1 ≡ take n (bytes h))
        × (cursor (F.set_len h n).1 ≡ cursor h)
  pub sync_lem :
      (h : F.Handle)
      → ((F.sync_data h).0 ≡ ok tt)
        × (bytes (F.sync_data h).1 ≡ bytes h)
        × (cursor (F.sync_data h).1 ≡ cursor h)

-- `call?; next`, where the call and the rest act on the handle.
abbrev pub then_do {ℓ} :
    {A B : Type 0} {H : Type ℓ}
    → Result DeltaError A × H
    → (H → Result DeltaError B × H)
    → Result DeltaError B × H
then_do (err x, h) next = (err x, h)
then_do (ok a, h) next = next h

module _ (F : File) where
  unfoldable pub load : F.Handle → Result DeltaError (List ℕ) × F.Handle
  load h = then_do (F.seek_start h 0) F.read_to_end

  unfoldable pub append : F.Handle → List ℕ → Result DeltaError (Unit {0}) × F.Handle
  append h r = then_do (F.write_all h r) F.sync_data

  unfoldable pub truncate : F.Handle → ℕ → Result DeltaError (Unit {0}) × F.Handle
  truncate h n = then_do (F.set_len h n) F.sync_data

  -- `FsBackend`, as the backend of a log.
  abbrev pub fs_backend : Backend
  fs_backend = record { Sink = F.Handle; load = load; append = append; truncate = truncate }

  module _ (L : FileLaws F) where
    open L use {bytes, cursor, seek_lem, read_lem, write_lem, set_len_lem, sync_lem}

    then_ok :
        {A B : Type 0} (p : Result DeltaError A × F.Handle) (a : A)
        (next : F.Handle → Result DeltaError B × F.Handle)
        → p.0 ≡ ok a
        → then_do p next ≡ next p.1
    then_ok (err x, h) a next e = cc
    then_ok (ok b, h) a next e = refl

    -- Loading reads the whole file, and leaves the cursor at its end.
    pub load_whole :
        (h : F.Handle)
        → ((load h).0 ≡ ok (bytes h))
          × (bytes (load h).1 ≡ bytes h)
          × (cursor (load h).1 ≡ length (bytes h))
    unfolding load
    load_whole h =
        let (a, b, c) = seek_lem h 0 in
        let (d, e, f) = read_lem (F.seek_start h 0).1 (rw c (omega arith)) in
        rw (then_ok (F.seek_start h 0) 0 F.read_to_end a)
          (d ∙ rw (c, b) refl, e ∙ b, f ∙ ap (λ (t : List ℕ). length t) b)

    -- A record is written behind the bytes of the file; a cursor past the end leaves a hole of zeros.
    pub append_holed :
        (h : F.Handle) (r : List ℕ)
        → length (bytes h) ≤ cursor h
        → ((append h r).0 ≡ ok tt)
          × (bytes (append h r).1 ≡ bytes h ++ (zeros (cursor h - length (bytes h)) ++ r))
          × (cursor (append h r).1 ≡ cursor h + length r)
    unfolding append
    append_holed h r past =
        let (a, b, c) = write_lem h r past in
        let (d, e, f) = sync_lem (F.write_all h r).1 in
        rw (then_ok (F.write_all h r) tt F.sync_data a) (d, e ∙ b, f ∙ c)

    -- A truncation cuts the file, and leaves the cursor where it was.
    pub truncate_cut :
        (h : F.Handle) (n : ℕ)
        → n ≤ length (bytes h)
        → ((truncate h n).0 ≡ ok tt)
          × (bytes (truncate h n).1 ≡ take n (bytes h))
          × (cursor (truncate h n).1 ≡ cursor h)
    unfolding truncate
    truncate_cut h n within =
        let (a, b, c) = set_len_lem h n within in
        let (d, e, f) = sync_lem (F.set_len h n).1 in
        rw (then_ok (F.set_len h n) tt F.sync_data a) (d, e ∙ b, f ∙ c)
