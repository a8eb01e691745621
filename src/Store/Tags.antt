-- ===== src/Store/Tags.antt =====
-- The tags of a store as its index has them: each label once, sorted, and the other way round.
use mathlib.Core.List.{reverse, reverse_aux}
use lean_rust_wasm.Prelude.{
  ◌≡◌, refl, sym, ap, ◌∙◌, subst, List, [], ◌∷◌, false, Option, none, some, Bool-cases, inl, inr,
}
use lean_rust_wasm.Text.{Text, same, same_refl, same-eq, lookup}
use lean_rust_wasm.Surface.{or_else}
use lean_rust_wasm.Store.Written.{pair_le, insert_tag, sort_tags, without, current_tags}

abbrev pub Tags : Type 0
Tags = List (Text × Text)

-- Each label stands once.
abbrev pub DistinctKeys : Tags → Type 0
DistinctKeys [] = Unit
DistinctKeys ((k, v) ∷ es) = (lookup k es ≡ none) × DistinctKeys es

not_same : (a b : Text) → same a b ≡ false → same b a ≡ false
not_same a b e = elim (Bool-cases (same b a)) [
  | inl hit ↦ let eq : b ≡ a = same-eq b a hit in cc (sym e ∙ ap (λ t. same a t) eq ∙ same_refl a)
  | inr miss ↦ miss
]

lookup_head : (k v j : Text) (es : Tags) → lookup j ((k, v) ∷ es) ≡ none → same k j ≡ false
lookup_head k v j es e = elim (Bool-cases (same k j)) [
  | inl hit ↦ let found : some v ≡ none = rw hit at e in cc found
  | inr miss ↦ miss
]

lookup_tail : (k v j : Text) (es : Tags) → lookup j ((k, v) ∷ es) ≡ none → lookup j es ≡ none
lookup_tail k v j es e = elim (Bool-cases (same k j)) [
  | inl hit ↦ let found : some v ≡ none = rw hit at e in cc found
  | inr miss ↦ rw miss at e
]

none_cons :
    (k v j : Text) (es : Tags)
    → same k j ≡ false
    → lookup j es ≡ none
    → lookup j ((k, v) ∷ es) ≡ none
none_cons k v j es other e = rw other e

without_same : (k : Text) (es : Tags) → lookup k (without k es) ≡ none
without_same k [] = refl
without_same k ((j, v) ∷ es) = elim (Bool-cases (same k j)) [
  | inl hit ↦ rw hit (without_same k es)
  | inr miss ↦ rw miss (none_cons j v k (without k es) (not_same k j miss) (without_same k es))
]

without_other : (k j : Text) (es : Tags) → same k j ≡ false → lookup j (without k es) ≡ lookup j es
without_other k j [] other = refl
without_other k j ((i, v) ∷ es) other = elim (Bool-cases (same k i)) [
  | inl hit ↦
      let eq : k ≡ i = same-eq k i hit in
      let skip : same i j ≡ false = subst (λ t. same t j ≡ false) eq other in
      rw (hit, skip) (without_other k j es other)
  | inr miss ↦ rw (miss, without_other k j es other) refl
]

without-none : (k j : Text) (es : Tags) → lookup j es ≡ none → lookup j (without k es) ≡ none
without-none k j es e = elim (Bool-cases (same k j)) [
  | inl hit ↦ subst (λ t. lookup t (without k es) ≡ none) (same-eq k j hit) (without_same k es)
  | inr miss ↦ without_other k j es miss ∙ e
]

without-DistinctKeys : (k : Text) (es : Tags) → DistinctKeys es → DistinctKeys (without k es)
without-DistinctKeys k [] h = tt
without-DistinctKeys k ((j, v) ∷ es) (new, h) = elim (Bool-cases (same k j)) [
  | inl hit ↦ rw hit (without-DistinctKeys k es h)
  | inr miss ↦ rw miss (without-none k j es new, without-DistinctKeys k es h)
]

pub current_tags-DistinctKeys : (es : Tags) → DistinctKeys (current_tags es)
current_tags-DistinctKeys [] = tt
current_tags-DistinctKeys ((k, v) ∷ es) = (
  without_same k (current_tags es),
  without-DistinctKeys k (current_tags es) (current_tags-DistinctKeys es),
)

pub lookup-current_tags : (j : Text) (es : Tags) → lookup j (current_tags es) ≡ lookup j es
lookup-current_tags j [] = refl
lookup-current_tags j ((k, v) ∷ es) = elim (Bool-cases (same k j)) [
  | inl hit ↦ rw hit refl
  | inr miss ↦ rw miss (without_other k j (current_tags es) miss ∙ lookup-current_tags j es)
]

insert_cases :
    (j k v l u : Text) (es inserted : Tags)
    → lookup k ((l, u) ∷ es) ≡ none
    → lookup j inserted ≡ lookup j ((k, v) ∷ es)
    → lookup j ((l, u) ∷ inserted) ≡ lookup j ((k, v) ∷ (l, u) ∷ es)
insert_cases j k v l u es inserted new ih = elim (Bool-cases (same l j)) [
  | inl here ↦ elim (Bool-cases (same k j)) [
    | inl both ↦
        let eq : k ≡ j = same-eq k j both in
        let other : same l j ≡ false = ap (λ t. same l t) (sym eq) ∙ lookup_head l u k es new in
        cc (sym here ∙ other)
    | inr only ↦ rw (here, only) refl
  ]
  | inr lost ↦ elim (Bool-cases (same k j)) [
    | inl found ↦
        let first : lookup j ((k, v) ∷ es) ≡ some v = rw found refl in rw (lost, found) (ih ∙ first)
    | inr neither ↦
        let skip : lookup j ((k, v) ∷ es) ≡ lookup j es = rw neither refl in
        rw (lost, neither) (ih ∙ skip)
  ]
]

lookup-insert_tag :
    (j k v : Text) (es : Tags)
    → lookup k es ≡ none
    → lookup j (insert_tag (k, v) es) ≡ lookup j ((k, v) ∷ es)
lookup-insert_tag j k v [] new = refl
lookup-insert_tag j k v ((l, u) ∷ es) new = elim (Bool-cases (pair_le (k, v) (l, u))) [
  | inl le ↦ rw le refl
  | inr gt ↦ rw gt (
      insert_cases j k v l u es (insert_tag (k, v) es) new
        (lookup-insert_tag j k v es (lookup_tail l u k es new)))
]

insert_tag-DistinctKeys :
    (k v : Text) (es : Tags)
    → lookup k es ≡ none
    → DistinctKeys es
    → DistinctKeys (insert_tag (k, v) es)
insert_tag-DistinctKeys k v [] new h = (refl, tt)
insert_tag-DistinctKeys k v ((l, u) ∷ es) new (first, h) =
    elim (Bool-cases (pair_le (k, v) (l, u))) [
      | inl le ↦ rw le (new, (first, h))
      | inr gt ↦ rw gt (
        lookup-insert_tag l k v es (lookup_tail l u k es new)
            ∙ none_cons k v l es (not_same l k (lookup_head l u k es new)) first,
        insert_tag-DistinctKeys k v es (lookup_tail l u k es new) h,
      )
    ]

pub lookup-sort_tags :
    (j : Text) (es : Tags) → DistinctKeys es → lookup j (sort_tags es) ≡ lookup j es
lookup-sort_tags j [] h = refl
lookup-sort_tags j ((k, v) ∷ es) (new, h) =
    let sorted_new : lookup k (sort_tags es) ≡ none = lookup-sort_tags k es h ∙ new in
    lookup-insert_tag j k v (sort_tags es) sorted_new ∙ elim (Bool-cases (same k j)) [
      | inl here ↦ rw here refl
      | inr lost ↦ rw lost (lookup-sort_tags j es h)
    ]

pub sort_tags-DistinctKeys : (es : Tags) → DistinctKeys es → DistinctKeys (sort_tags es)
sort_tags-DistinctKeys [] h = tt
sort_tags-DistinctKeys ((k, v) ∷ es) (new, h) =
    insert_tag-DistinctKeys k v (sort_tags es) (lookup-sort_tags k es h ∙ new)
      (sort_tags-DistinctKeys es h)

reversed :
    (j : Text) (es later : Tags)
    → DistinctKeys es
    → lookup j (reverse_aux es later) ≡ or_else (lookup j es) (lookup j later)
reversed j [] later h = refl
reversed j ((k, v) ∷ es) later (new, h) =
    reversed j es ((k, v) ∷ later) h ∙ elim (Bool-cases (same k j)) [
      | inl here ↦
          let gone : lookup j es ≡ none = ap (λ t. lookup t es) (sym (same-eq k j here)) ∙ new in
          rw (here, gone) refl
      | inr lost ↦ rw lost refl
    ]

or_else-none : (o : Option Text) → or_else o none ≡ o
or_else-none none = refl
or_else-none (some t) = refl

pub lookup-reverse : (j : Text) (es : Tags) → DistinctKeys es → lookup j (reverse es) ≡ lookup j es
lookup-reverse j es h = reversed j es [] h ∙ or_else-none (lookup j es)
