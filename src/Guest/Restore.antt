-- ===== src/Guest/Restore.antt =====
-- A snapshot of a guest's memory, restored into a fresh instance by guestlang-rt/src/lib.rs.
use lean_rust_wasm.Prelude.{
  ℕ, zero, suc, ◌+◌, ◌-◌, ◌*◌, ◌≤◌, ◌≡◌, refl, ap, ◌∙◌, List, [], ◌∷◌, ◌++◌, append-nil, length,
  drop, length-append, some, ok, ltb, arith, Bool-cases, inl, inr,
}
use lean_rust_wasm.Guest.{
  Interpreter, Snapshot, Runtime, runtime_new, with_store, memory, snapshot, grow_to, restore,
  pages_for, page_size,
}

abbrev pub zeros : ℕ → List ℕ
zeros zero = []
zeros (suc n) = 0 ∷ zeros n

pub length-zeros : (n : ℕ) → length (zeros n) ≡ n
length-zeros zero = refl
length-zeros (suc n) = ap suc (length-zeros n)

drop_all : (n : ℕ) (xs : List ℕ) → length xs ≤ n → drop n xs ≡ []
drop_all zero [] h = refl
drop_all zero (x ∷ xs) h = absurd (omega arith)
drop_all (suc n) [] h = refl
drop_all (suc n) (x ∷ xs) h = drop_all n xs (omega arith)

-- What the interpreter documents of a linear memory: growth appends pages of zeros, a write that fits
-- succeeds and changes the bytes that it covers, and neither touches the fuel or the exports.
pub record MemoryLaws (w : Interpreter) : Type 0 where
  pub grow_bytes :
      (m : w.Memory) (s later : w.Store) (pages : ℕ)
      → w.grow m s pages ≡ ok later
      → w.bytes_of m later ≡ w.bytes_of m s ++ zeros (pages * page_size)
  pub grow_fuel :
      (m : w.Memory) (s later : w.Store) (pages : ℕ)
      → w.grow m s pages ≡ ok later
      → w.get_fuel later ≡ w.get_fuel s
  pub grow_exports :
      (m : w.Memory) (s later : w.Store) (pages : ℕ) (i : w.Instance)
      → w.grow m s pages ≡ ok later
      → w.get_memory i later ≡ w.get_memory i s
  pub write_fits :
      (m : w.Memory) (s : w.Store) (image : List ℕ)
      → length image ≤ length (w.bytes_of m s)
      → (later : w.Store) × (w.write_front m s image ≡ ok later)
  pub write_bytes :
      (m : w.Memory) (s later : w.Store) (image : List ℕ)
      → w.write_front m s image ≡ ok later
      → w.bytes_of m later ≡ image ++ drop (length image) (w.bytes_of m s)
  pub write_fuel :
      (m : w.Memory) (s later : w.Store) (image : List ℕ)
      → w.write_front m s image ≡ ok later
      → w.get_fuel later ≡ w.get_fuel s
  pub write_exports :
      (m : w.Memory) (s later : w.Store) (image : List ℕ) (i : w.Instance)
      → w.write_front m s image ≡ ok later
      → w.get_memory i later ≡ w.get_memory i s

pages_for_whole : (k : ℕ) → pages_for (k * page_size) ≡ k
pages_for_whole k = omega arith

module _ (w : Interpreter) (laws : MemoryLaws w) where
  -- A store whose memory has exactly the image's length, made from another one.
  abbrev Room : w.Memory → w.Instance → w.Store → w.Store → List ℕ → Type 0
  Room m i s grown image =
      (length (w.bytes_of m grown) ≡ length image)
      × ((w.get_fuel grown ≡ w.get_fuel s) × (w.get_memory i grown ≡ w.get_memory i s))

  grow_to-Room :
      (m : w.Memory) (i : w.Instance) (s : w.Store) (image : List ℕ) (k : ℕ)
      → length image ≡ length (w.bytes_of m s) + k * page_size
      → ((pages : ℕ)
          → length (w.bytes_of m s) + pages * page_size ≤ length image
          → (later : w.Store) × (w.grow m s pages ≡ ok later))
      → (grown : w.Store) × (grow_to w m s image ≡ ok grown) × Room m i s grown image
  unfolding grow_to
  grow_to-Room m i s image k h can_grow =
      let cur = length (w.bytes_of m s) in
      elim (Bool-cases (ltb cur (length image))) [
        | inr fits ↦ (s, rw fits refl, (ground (arith, fits, h), (refl, refl)))
        | inl short ↦
            let (grown, hg) = can_grow k (omega (arith, h)) in
            let pages : pages_for (length image - cur) ≡ k =
              ap pages_for (omega (arith, h)) ∙ pages_for_whole k in
            let size : length (w.bytes_of m grown) ≡ length image =
              ap length (laws.grow_bytes m s grown k hg)
              ∙ omega (
                arith,
                length-append (w.bytes_of m s) (zeros (k * page_size)),
                length-zeros (k * page_size),
                h,
              ) in
            (
              grown,
              rw (short, pages, hg) refl,
              (size, (laws.grow_fuel m s grown k hg, laws.grow_exports m s grown k i hg)),
            )
      ]

  -- A snapshot restored into a fresh instance is the instance's own snapshot: the memory is the image
  -- and the fuel the captured fuel. The fresh instance has a memory that is no longer than the image,
  -- by whole pages, and may grow that far, and its start took no fuel.
  pub restore-snapshot :
      (snap : Snapshot) (wasm : List ℕ) (fresh : Runtime w) (m : w.Memory) (k : ℕ)
      → runtime_new w wasm snap.fuel ≡ ok fresh
      → w.get_fuel fresh.store ≡ ok snap.fuel
      → w.get_memory fresh.inst fresh.store ≡ some m
      → length snap.image ≡ length (w.bytes_of m fresh.store) + k * page_size
      → ((pages : ℕ)
          → length (w.bytes_of m fresh.store) + pages * page_size ≤ length snap.image
          → (later : w.Store) × (w.grow m fresh.store pages ≡ ok later))
      → (rt : Runtime w) × (restore w snap wasm ≡ ok rt) × (snapshot w rt ≡ ok snap)
  unfolding restore snapshot memory
  restore-snapshot snap wasm fresh m k hn hfuel hm hk can_grow =
      let (grown, hg, (size, (gf, ge))) =
        grow_to-Room m fresh.inst fresh.store snap.image k hk can_grow in
      let (written, hw) = laws.write_fits m grown snap.image (omega (arith, size)) in
      let bytes : w.bytes_of m written ≡ snap.image =
        laws.write_bytes m grown written snap.image hw
        ∙ ap (λ l. snap.image ++ l)
            (drop_all (length snap.image) (w.bytes_of m grown) (omega (arith, size)))
        ∙ append-nil snap.image in
      let fuel : w.get_fuel written ≡ ok snap.fuel =
        laws.write_fuel m grown written snap.image hw ∙ gf ∙ hfuel in
      let mem : w.get_memory fresh.inst written ≡ some m =
        laws.write_exports m grown written snap.image fresh.inst hw ∙ ge ∙ hm in
      (with_store w fresh written, rw (hn, hm, hg, hw) refl, rw (mem, fuel, bytes) refl)
