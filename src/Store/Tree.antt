-- ===== src/Store/Tree.antt =====
-- Trees of JSON for tests, on which the laws of serde_json hold; the printer knows one value.
use lean_rust_wasm.Prelude.{
  ℕ, ◌≡◌, refl, sym, ap, ◌∙◌, List, [], ◌∷◌, Bool, true, false, ◌&&◌, Option, none, some, Result,
  err, ok, ◌==◌, if◌then◌else◌, Bool-cases, inl, inr, arith,
}
use lean_rust_wasm.Text.{Text, codes, same, same-eq, lookup}
use lean_rust_wasm.Json.{Serde}
use lean_rust_wasm.Store.Verified.{ok_injective}
use lean_rust_wasm.Store.Laws.{JsonLaws}

mutual
  pub data Tree : Type 0 where
    null_tree : Tree
    text_tree : Text → Tree
    number_tree : ℕ → Tree
    array_tree : Trees → Tree
    object_tree : Members → Tree

  pub data Trees : Type 0 where
    no_trees : Trees
    and_tree : Tree → Trees → Trees

  pub data Members : Type 0 where
    no_members : Members
    and_member : Text → Tree → Members → Members

abbrev pub trees_of : List Tree → Trees
trees_of [] = no_trees
trees_of (v ∷ vs) = and_tree v (trees_of vs)

abbrev pub list_of : Trees → List Tree
list_of no_trees = []
list_of (and_tree v vs) = v ∷ list_of vs

abbrev pub members_of : List (Text × Tree) → Members
members_of [] = no_members
members_of ((k, v) ∷ ms) = and_member k v (members_of ms)

abbrev pub member : Text → Members → Tree
member k no_members = null_tree
member k (and_member l v ms) = if same l k then v else member k ms

abbrev pub tree_at : Tree → Text → Tree
tree_at (object_tree ms) k = member k ms
tree_at _ k = null_tree

abbrev pub text_in : Tree → Option Text
text_in (text_tree t) = some t
text_in _ = none

abbrev pub trees_in : Tree → Option (List Tree)
trees_in (array_tree vs) = some (list_of vs)
trees_in _ = none

abbrev mutual
  same_tree : Tree → Tree → Bool
  same_tree null_tree null_tree = true
  same_tree (text_tree t) (text_tree u) = same t u
  same_tree (number_tree m) (number_tree n) = m == n
  same_tree (array_tree vs) (array_tree us) = same_trees vs us
  same_tree (object_tree ms) (object_tree ns) = same_members ms ns
  same_tree _ _ = false

  same_trees : Trees → Trees → Bool
  same_trees no_trees no_trees = true
  same_trees (and_tree v vs) (and_tree u us) = same_tree v u && same_trees vs us
  same_trees _ _ = false

  same_members : Members → Members → Bool
  same_members no_members no_members = true
  same_members (and_member k v ms) (and_member l u ns) =
      same k l && (same_tree v u && same_members ms ns)
  same_members _ _ = false

both_true : (a b : Bool) → (a && b) ≡ true → (a ≡ true) × (b ≡ true)
both_true true b e = (refl, e)
both_true false b e = cc

mutual
  same_tree-eq : (v u : Tree) → same_tree v u ≡ true → v ≡ u
  same_tree-eq null_tree null_tree e = refl
  same_tree-eq (text_tree t) (text_tree u) e = ap text_tree (same-eq t u e)
  same_tree-eq (number_tree m) (number_tree n) e = ap number_tree (ground (arith, e))
  same_tree-eq (array_tree vs) (array_tree us) e = ap array_tree (same_trees-eq vs us e)
  same_tree-eq (object_tree ms) (object_tree ns) e = ap object_tree (same_members-eq ms ns e)
  same_tree-eq _ _ e = cc

  same_trees-eq : (vs us : Trees) → same_trees vs us ≡ true → vs ≡ us
  same_trees-eq no_trees no_trees e = refl
  same_trees-eq (and_tree v vs) (and_tree u us) e =
      let (first, later) = both_true (same_tree v u) (same_trees vs us) e in
      cc (same_tree-eq v u first, same_trees-eq vs us later)
  same_trees-eq no_trees (and_tree u us) e = cc
  same_trees-eq (and_tree v vs) no_trees e = cc

  same_members-eq : (ms ns : Members) → same_members ms ns ≡ true → ms ≡ ns
  same_members-eq no_members no_members e = refl
  same_members-eq (and_member k v ms) (and_member l u ns) e =
      let (key, rest) = both_true (same k l) (same_tree v u && same_members ms ns) e in
      let (first, later) = both_true (same_tree v u) (same_members ms ns) rest in
      cc (same-eq k l key, same_tree-eq v u first, same_members-eq ms ns later)
  same_members-eq no_members (and_member l u ns) e = cc
  same_members-eq (and_member k v ms) no_members e = cc

abbrev pub printed_text : Text
printed_text = codes "{...}"

abbrev pub print_one : Tree → Tree → Result Text Text
print_one known v = if same_tree v known then ok printed_text else err (codes "unknown")

-- The reader whose printer knows one value.
abbrev pub tree_serde : Tree → Serde
tree_serde known = record {
  Json = Tree;
  Fields = Unit {0};
  as_str = text_in;
  as_array = trees_in;
  as_object = λ v. none;
  get = λ fields key. none;
  index = tree_at;
  string = text_tree;
  number = number_tree;
  array = λ vs. array_tree (trees_of vs);
  object = λ ms. object_tree (members_of ms);
  to_string_pretty = print_one known;
  from_str = λ t. if same t printed_text then some known else none;
  stream = λ t. [];
  stream_error = λ t. none;
}

list_of-trees_of : (vs : List Tree) → list_of (trees_of vs) ≡ vs
list_of-trees_of [] = refl
list_of-trees_of (v ∷ vs) = ap (λ us. v ∷ us) (list_of-trees_of vs)

member_found :
    (ms : List (Text × Tree)) (k : Text) (v : Tree)
    → lookup k ms ≡ some v
    → member k (members_of ms) ≡ v
member_found [] k v e = cc
member_found ((l, u) ∷ ms) k v e = elim (Bool-cases (same l k)) [
  | inl hit ↦ let found : some u ≡ some v = rw hit at e in rw hit (cc found)
  | inr miss ↦
      let later : lookup k ms ≡ some v = rw miss at e in rw miss (member_found ms k v later)
]

member_missing :
    (ms : List (Text × Tree)) (k : Text) → lookup k ms ≡ none → member k (members_of ms) ≡ null_tree
member_missing [] k e = refl
member_missing ((l, u) ∷ ms) k e = elim (Bool-cases (same l k)) [
  | inl hit ↦ let found : some u ≡ none = rw hit at e in cc found
  | inr miss ↦ let later : lookup k ms ≡ none = rw miss at e in rw miss (member_missing ms k later)
]

print_known :
    (known v : Tree) (t : Text) → print_one known v ≡ ok t → (v ≡ known) × (printed_text ≡ t)
print_known known v t e = elim (Bool-cases (same_tree v known)) [
  | inl hit ↦
      let printed : ◌≡◌ {A = Result Text Text} (ok printed_text) (ok t) = rw hit at e in
      (same_tree-eq v known hit, ok_injective printed)
  | inr miss ↦
      let refused : ◌≡◌ {A = Result Text Text} (err (codes "unknown")) (ok t) = rw miss at e in
      cc refused
]

pub tree_serde-JsonLaws : (known : Tree) → JsonLaws (tree_serde known)
tree_serde-JsonLaws known = record {
  as_str-string = λ t. refl;
  as_array-array = λ vs. ap some (list_of-trees_of vs);
  index_member = λ fields key v distinct e. member_found fields key v e;
  index_missing =
      λ fields key other e. ap (λ v. text_in (tree_at v other)) (member_missing fields key e);
}

pub tree_serde-prints :
    (known v : Tree) (t : Text)
    → (tree_serde known).to_string_pretty v ≡ ok t
    → (tree_serde known).from_str t ≡ some v
tree_serde-prints known v t e =
    let (one, known_text) = print_known known v t e in
    ap (λ u. if same u printed_text then some known else none) (sym known_text) ∙ ap some (sym one)
