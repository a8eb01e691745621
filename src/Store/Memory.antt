-- ===== src/Store/Memory.antt =====
-- A platform for tests: a disk in memory, on which the laws of files hold.
use lean_rust_wasm.Prelude.{
  ℕ, ◌≡◌, refl, sym, ap, ◌∙◌, List, ◌∷◌, Bool, true, false, if◌then◌else◌, Option, some, ok, ◌==◌,
  ok_or,
}
use lean_rust_wasm.Text.{Text, same, lookup}
use lean_rust_wasm.Store.{Platform}
use lean_rust_wasm.Store.Verified.{DiskLaws, ok_injective}

abbrev pub FileList : Type 0
FileList = List (Text × List ℕ)

-- The digest of a content is the content, which is free of collisions.
abbrev pub memory : Platform
memory = record {
  Disk = FileList;
  Io = Text;
  read = λ disk path. ok_or (lookup path disk) path;
  write = λ disk path content. ok ((path, content) ∷ disk);
  sha256_hex = λ content. content;
  from_utf8_lossy = λ content. content;
  into_bytes = λ text. text;
  is_whitespace = λ c. c == 32;
}

ok_or_choice :
    (b : Bool) (content : List ℕ) (old : Option (List ℕ)) (path : Text)
    → ok_or (if b then some content else old) path ≡ (if b then ok content else ok_or old path)
ok_or_choice true content old path = refl
ok_or_choice false content old path = refl

pub memory-DiskLaws : DiskLaws memory
memory-DiskLaws disk later path content e other =
    ap (λ d. ok_or (lookup other d) other) (sym (ok_injective e))
    ∙ ok_or_choice (same path other) content (lookup other disk) other
