-- ===== src/Guest/Runs.antt =====
-- An interpreter whose modules are their initial memory and whose functions answer their arguments
-- for one unit of fuel, and the theorems at it.
use lean_rust_wasm.Prelude.{
  ℕ, ◌+◌, ◌-◌, ◌*◌, ◌≤◌, ◌≡◌, refl, sym, ap, List, [], ◌∷◌, ◌++◌, length, drop, Bool, true, false,
  some, Result, err, ok, leb, arith,
}
use lean_rust_wasm.Prelude.Int.{ℤ, pos, negsuc}
use lean_rust_wasm.Text.{Text, codes}
use lean_rust_wasm.Value.{as_signed, word_of}
use lean_rust_wasm.Guest.{
  Interpreter, Runtime, Snapshot, i32_ty, i64_ty, arity, runtime_new, link_imports, call,
  coerce_arg, scalar, restore, snapshot, page_size,
}
use lean_rust_wasm.Guest.Restore.{MemoryLaws, restore-snapshot, zeros, length-zeros}

-- The memory and the fuel.
abbrev Cells : Type 0
Cells = List ℕ × ℕ

abbrev put_front : Cells → List ℕ → Bool → Result Text Cells
put_front s image true = ok (image ++ drop (length image) s.0, s.1)
put_front s image false = err (codes "out of bounds")

abbrev echo : Interpreter
echo = record {
  Module = List ℕ;
  Linker = Unit {0};
  Store = Cells;
  Instance = Unit {0};
  Func = Unit {0};
  Memory = Unit {0};
  Trap = Text;
  compile = λ wasm. ok wasm;
  new_store = ([], 0);
  set_fuel = λ s n. ok (s.0, n);
  get_fuel = λ s. ok s.1;
  imports = λ wasm. [];
  new_linker = tt;
  link_trap = λ l name. ok l;
  instantiate_and_start = λ l s wasm. ok ((wasm, s.1), tt);
  get_func = λ i s name. some tt;
  params = λ f. i32_ty ∷ i64_ty ∷ [];
  results = λ f. 2;
  call_func = λ f s vs n. ((s.0, s.1 - 1), ok vs);
  get_memory = λ i s. some tt;
  bytes_of = λ m s. s.0;
  grow = λ m s pages. ok (s.0 ++ zeros (pages * page_size), s.1);
  write_front = λ m s image. put_front s image (leb (length image) (length s.0));
}

ok_same : {x y : Cells} → ◌≡◌ {A = Result Text Cells} (ok x) (ok y) → x ≡ y
ok_same e = cc

put_front-ok :
    (s later : Cells) (image : List ℕ) (b : Bool)
    → put_front s image b ≡ ok later
    → (image ++ drop (length image) s.0, s.1) ≡ later
put_front-ok s later image true e = ok_same e
put_front-ok s later image false e = cc

put_front_fits :
    (s : Cells) (image : List ℕ)
    → length image ≤ length s.0
    → (later : Cells) × (put_front s image (leb (length image) (length s.0)) ≡ ok later)
put_front_fits s image h =
    let fits : leb (length image) (length s.0) ≡ true = ground arith in
    ((image ++ drop (length image) s.0, s.1), rw fits refl)

echo-MemoryLaws : MemoryLaws echo
echo-MemoryLaws = record {
  grow_bytes = λ m s later pages e. ap (λ c. c.0) (sym (ok_same e));
  grow_fuel = λ m s later pages e. ap (λ c. ok c.1) (sym (ok_same e));
  grow_exports = λ m s later pages i e. refl;
  write_fits = λ m s image h. put_front_fits s image h;
  write_bytes = λ m s later image e.
      ap (λ c. c.0) (sym (put_front-ok s later image (leb (length image) (length s.0)) e));
  write_fuel = λ m s later image e.
      ap (λ c. ok c.1) (sym (put_front-ok s later image (leb (length image) (length s.0)) e));
  write_exports = λ m s later image i e. refl;
}

-- A guest that has grown its memory by a page.
abbrev grown_snapshot : Snapshot
grown_snapshot = record { image = 7 ∷ 8 ∷ zeros page_size; fuel = 90 }

abbrev started : Runtime echo
started = record { store = (1 ∷ 2 ∷ [], 90); inst = tt }

started-new : runtime_new echo (1 ∷ 2 ∷ []) 90 ≡ ok started
unfolding runtime_new link_imports
started-new = refl

one_page : length grown_snapshot.image ≡ 2 + 1 * page_size
one_page = omega (arith, length-zeros page_size)

restore-snapshot_example :
    (rt : Runtime echo) × (restore echo grown_snapshot (1 ∷ 2 ∷ []) ≡ ok rt)
    × (snapshot echo rt ≡ ok grown_snapshot)
restore-snapshot_example =
    restore-snapshot echo echo-MemoryLaws grown_snapshot (1 ∷ 2 ∷ []) started tt 1 started-new refl
      refl one_page (λ pages h. ((1 ∷ 2 ∷ zeros (pages * page_size), 90), refl))

abbrev arguments : List ℤ
arguments = negsuc 0 ∷ pos 5 ∷ []

abbrev called : Runtime echo
called = record { store = (1 ∷ 2 ∷ [], 49); inst = tt }

echoed : call echo started (codes "f") arguments 50 ≡ (called, ok (arguments, 1))
unfolding call coerce_arg scalar as_signed word_of
echoed = refl

wrong_arity : call echo started (codes "f") [] 50 ≡ (started, err (arity (codes "f") 2 0))
unfolding call
wrong_arity = refl
