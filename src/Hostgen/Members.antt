-- ===== src/Hostgen/Members.antt =====
-- What a member line of a snapshot lets into the open item, hostgen.rs.
use lean_rust_wasm.Prelude.{
  ◌≤◌, ◌≡◌, refl, List, [], ◌∷◌, ◌++◌, Bool, Option, none, some, Result, err, ok, ◌>>=◌, All,
  Ensures, Ensures->>=, Bool-cases, inl, inr,
}
use lean_rust_wasm.Text.{Text}
use lean_rust_wasm.Hostgen.{
  Ty, Item, record_item, variant_item, func_item, resource_item, Message, parse_ty_text,
}
use lean_rust_wasm.Hostgen.Lines.{
  Open, open_record, open_variant, open_func, open_resource, close, settle, add_field, add_case,
  add_param, add_ret, add_sem, parse_sem, contains, null_sems, determinisms,
}
use lean_rust_wasm.Hostgen.Writer.{depth, SemOk}
use lean_rust_wasm.Hostgen.TySound.{Gated, parse_ty_text-Gated}

abbrev pub Shallow : Ty → Type 0
Shallow t = Gated t × (depth t ≤ 64)

abbrev pub MemberShallow : (Text × Ty) → Type 0
MemberShallow (name, t) = Shallow t

abbrev pub CaseShallow : (Text × Option Ty) → Type 0
CaseShallow (name, none) = Unit
CaseShallow (name, some t) = Shallow t

-- Every type of the item passes the gates, and the words of its semantics are from the closed sets.
abbrev pub ItemShallow : Item → Type 0
ItemShallow (record_item n fields) = All MemberShallow fields
ItemShallow (variant_item n cases) = All CaseShallow cases
ItemShallow (func_item n params ret sem) = All MemberShallow params × (Shallow ret × SemOk sem)
ItemShallow (resource_item n) = Unit

abbrev RetShallow : Option Ty → Type 0
RetShallow none = Unit
RetShallow (some t) = Shallow t

abbrev pub OpenShallow : Open → Type 0
OpenShallow (open_record n fields) = All MemberShallow fields
OpenShallow (open_variant n cases) = All CaseShallow cases
OpenShallow (open_func n params ret sem) = All MemberShallow params × (RetShallow ret × SemOk sem)
OpenShallow (open_resource n) = Unit

abbrev pub CurrentShallow : Option Open → Type 0
CurrentShallow none = Unit
CurrentShallow (some o) = OpenShallow o

All-snoc :
    {A : Type 0} (P : A → Type 0) → (xs : List A) (x : A) → All P xs → P x → All P (xs ++ x ∷ [])
All-snoc P [] x hs h = (h, tt)
All-snoc P (y ∷ xs) x (hy, hs) h = (hy, All-snoc P xs x hs h)

-- A type token that is read, and what is made of it.
parse_then :
    {A : Type 0}
    → (P : A → Type 0) (text : Text) (make : Ty → Result Message A)
    → ((t : Ty) → Shallow t → Ensures P (make t))
    → Ensures P (parse_ty_text text >>= make)
parse_then P text make later =
    Ensures->>= Shallow P (parse_ty_text text) make (read_ty (parse_ty_text text) refl) later
  where
    read_ty : (r : Result Message Ty) → parse_ty_text text ≡ r → Ensures Shallow r
    read_ty (err why) e = tt
    read_ty (ok t) e = parse_ty_text-Gated text t e

pub close-Shallow : (o : Open) → OpenShallow o → Ensures ItemShallow (close o)
unfolding close
close-Shallow (open_record n fields) h = h
close-Shallow (open_variant n cases) h = h
close-Shallow (open_func n params none sem) h = tt
close-Shallow (open_func n params (some ret) sem) h = h
close-Shallow (open_resource n) h = tt

pub settle-Shallow :
    (items : List Item) (cur : Option Open)
    → All ItemShallow items
    → CurrentShallow cur
    → Ensures (All ItemShallow) (settle items cur)
unfolding settle
settle-Shallow items none hi hc = hi
settle-Shallow items (some o) hi hc =
    Ensures->>= ItemShallow (All ItemShallow) (close o) _ (close-Shallow o hc)
      (λ item h. All-snoc ItemShallow items item hi h)

pub add_field-Shallow :
    (name text : Text) (cur : Option Open)
    → CurrentShallow cur
    → Ensures OpenShallow (add_field name text cur)
unfolding add_field
add_field-Shallow name text none h = tt
add_field-Shallow name text (some (open_record n fields)) h =
    parse_then OpenShallow text _ (λ t ht. All-snoc MemberShallow fields (name, t) h ht)
add_field-Shallow name text (some (open_variant n cases)) h = tt
add_field-Shallow name text (some (open_func n params ret sem)) h = tt
add_field-Shallow name text (some (open_resource n)) h = tt

pub add_case-Shallow :
    (name : Text) (payload : Option Text) (cur : Option Open)
    → CurrentShallow cur
    → Ensures OpenShallow (add_case name payload cur)
unfolding add_case
add_case-Shallow name none none h = tt
add_case-Shallow name (some text) none h = tt
add_case-Shallow name none (some (open_variant n cases)) h =
    All-snoc CaseShallow cases (name, none) h tt
add_case-Shallow name (some text) (some (open_variant n cases)) h =
    parse_then OpenShallow text _ (λ t ht. All-snoc CaseShallow cases (name, some t) h ht)
add_case-Shallow name none (some (open_record n fields)) h = tt
add_case-Shallow name (some text) (some (open_record n fields)) h = tt
add_case-Shallow name none (some (open_func n params ret sem)) h = tt
add_case-Shallow name (some text) (some (open_func n params ret sem)) h = tt
add_case-Shallow name none (some (open_resource n)) h = tt
add_case-Shallow name (some text) (some (open_resource n)) h = tt

pub add_param-Shallow :
    (name text : Text) (cur : Option Open)
    → CurrentShallow cur
    → Ensures OpenShallow (add_param name text cur)
unfolding add_param
add_param-Shallow name text none h = tt
add_param-Shallow name text (some (open_func n params none sem)) (hp, (hr, hs)) =
    parse_then OpenShallow text _
      (λ t ht. (All-snoc MemberShallow params (name, t) hp ht, (tt, hs)))
add_param-Shallow name text (some (open_func n params (some ret) sem)) h = tt
add_param-Shallow name text (some (open_record n fields)) h = tt
add_param-Shallow name text (some (open_variant n cases)) h = tt
add_param-Shallow name text (some (open_resource n)) h = tt

pub add_ret-Shallow :
    (text : Text) (cur : Option Open) → CurrentShallow cur → Ensures OpenShallow (add_ret text cur)
unfolding add_ret
add_ret-Shallow text none h = tt
add_ret-Shallow text (some (open_func n params none sem)) (hp, (hr, hs)) =
    parse_then OpenShallow text _ (λ t ht. (hp, (ht, hs)))
add_ret-Shallow text (some (open_func n params (some ret) sem)) h = tt
add_ret-Shallow text (some (open_record n fields)) h = tt
add_ret-Shallow text (some (open_variant n cases)) h = tt
add_ret-Shallow text (some (open_resource n)) h = tt

parse_sem-SemOk :
    (ns ds : Text) (four : Bool) → Ensures (λ s. SemOk (some s)) (parse_sem ns ds four)
unfolding parse_sem
parse_sem-SemOk ns ds four = elim (Bool-cases (contains null_sems ns)) [
  | inr e ↦ rw e tt
  | inl e ↦ elim (Bool-cases (contains determinisms ds)) [
    | inr f ↦ rw (e, f) tt
    | inl f ↦ rw (e, f) (e, f)
  ]
]

pub add_sem-Shallow :
    (ns ds : Text) (four : Bool) (cur : Option Open)
    → CurrentShallow cur
    → Ensures OpenShallow (add_sem ns ds four cur)
unfolding add_sem
add_sem-Shallow ns ds four none h = tt
add_sem-Shallow ns ds four (some (open_func n params (some ret) none)) (hp, (hr, hs)) =
    Ensures->>= (λ s. SemOk (some s)) OpenShallow (parse_sem ns ds four) _
      (parse_sem-SemOk ns ds four) (λ s h. (hp, (hr, h)))
add_sem-Shallow ns ds four (some (open_func n params (some ret) (some s))) h = tt
add_sem-Shallow ns ds four (some (open_func n params none (some s))) h = tt
add_sem-Shallow ns ds four (some (open_func n params none none)) h = tt
add_sem-Shallow ns ds four (some (open_record n fields)) h = tt
add_sem-Shallow ns ds four (some (open_variant n cases)) h = tt
add_sem-Shallow ns ds four (some (open_resource n)) h = tt
