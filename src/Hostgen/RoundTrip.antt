-- ===== src/Hostgen/RoundTrip.antt =====
-- A written snapshot, read back line by line by `parse_snapshot` of hostgen.rs.
use lean_rust_wasm.Prelude.{
  ℕ, suc, ◌≡◌, refl, sym, ap, ◌∙◌, subst, List, [], ◌∷◌, ◌++◌, append_assoc, append-nil, Bool,
  if◌then◌else◌, false, true, Option, none, some, ok, ◌>>=◌, All,
}
use lean_rust_wasm.Text.{join_lines, every, split, Text, codes, same}
use lean_rust_wasm.Text.Cuts.{differs, split-join_lines}
use lean_rust_wasm.Hostgen.{Ty, FuncSem, Item, record_item, variant_item, func_item, resource_item}
use lean_rust_wasm.Hostgen.Lines.{
  Open, open_record, open_variant, open_func, open_resource, close, Progress, settle, read_line,
  read_lines, finish, parse_snapshot, nothing_read, two_tokens,
}
use lean_rust_wasm.Hostgen.Writer.{
  render_ty, words, member_line, case_text, sem_text, is_default_sem, sem_lines, map_list,
  item_lines, all_lines, render, MemberOk, CaseOk, SemOk, ItemOk,
}
use lean_rust_wasm.Hostgen.Normal.{normal_sem, normal, normals, render-normals}
use lean_rust_wasm.Hostgen.Characters.{one_line, IsLine, all_lines-IsLine}
use lean_rust_wasm.Hostgen.Reads.{
  Reads, field-Reads, case-Reads, param-Reads, ret-Reads, sem-Reads, header-Reads,
}

abbrev progress : List Item → Option Open → ℕ → Progress
progress items cur last = record { finished = items; current = cur; last_line = last }

-- From these items and this open item, the lines give the universe, whatever their numbers are.
abbrev Yields : List Item → Option Open → List Text → List Item → Type 0
Yields items cur ls out =
    (n last : ℕ) → read_lines n ls (progress items cur last) >>= finish ≡ ok out

-- A line that is not blank.
Yields-line :
    (t : Text) (ls : List Text) (items later out : List Item) (cur : Option Open) (o : Open)
    → same t [] ≡ false
    → Reads t items cur later o
    → Yields later (some o) ls out
    → Yields items cur (t ∷ ls) out
unfolding read_lines read_line
Yields-line [] ls items later out cur o filled reads next = cc
Yields-line (c ∷ cs) ls items later out cur o filled reads next =
    λ n last. rw reads (next (suc n) n)

Yields-fields :
    (ms fs : List (Text × Ty)) (items out : List Item) (n : Text) (ls : List Text)
    → All MemberOk ms
    → Yields items (some (open_record n (fs ++ ms))) ls out
    → Yields items (some (open_record n fs)) (map_list (member_line (codes "field")) ms ++ ls) out
Yields-fields [] fs items out n ls h next =
    subst (λ gs. Yields items (some (open_record n gs)) ls out) (append-nil fs) next
Yields-fields (m ∷ ms) fs items out n ls (h, hs) next =
    let moved =
      subst (λ gs. Yields items (some (open_record n gs)) ls out)
        (sym (append_assoc fs (m ∷ []) ms)) next in
    Yields-line (member_line (codes "field") m) (map_list (member_line (codes "field")) ms ++ ls)
      items items out (some (open_record n fs)) (open_record n (fs ++ m ∷ [])) refl
      (field-Reads items n fs m h) (Yields-fields ms (fs ++ m ∷ []) items out n ls hs moved)

case_text_filled : (m : Text × Option Ty) → same (case_text m) [] ≡ false
case_text_filled (name, none) = refl
case_text_filled (name, some t) = refl

Yields-cases :
    (ms fs : List (Text × Option Ty)) (items out : List Item) (n : Text) (ls : List Text)
    → All CaseOk ms
    → Yields items (some (open_variant n (fs ++ ms))) ls out
    → Yields items (some (open_variant n fs)) (map_list case_text ms ++ ls) out
Yields-cases [] fs items out n ls h next =
    subst (λ gs. Yields items (some (open_variant n gs)) ls out) (append-nil fs) next
Yields-cases (m ∷ ms) fs items out n ls (h, hs) next =
    let moved =
      subst (λ gs. Yields items (some (open_variant n gs)) ls out)
        (sym (append_assoc fs (m ∷ []) ms)) next in
    Yields-line (case_text m) (map_list case_text ms ++ ls) items items out
      (some (open_variant n fs)) (open_variant n (fs ++ m ∷ [])) (case_text_filled m)
      (case-Reads items n fs m h) (Yields-cases ms (fs ++ m ∷ []) items out n ls hs moved)

Yields-params :
    (ms fs : List (Text × Ty)) (items out : List Item) (n : Text) (ls : List Text)
    → All MemberOk ms
    → Yields items (some (open_func n (fs ++ ms) none none)) ls out
    → Yields items
        (some (open_func n fs none none))
        (map_list (member_line (codes "param")) ms ++ ls)
        out
Yields-params [] fs items out n ls h next =
    subst (λ gs. Yields items (some (open_func n gs none none)) ls out) (append-nil fs) next
Yields-params (m ∷ ms) fs items out n ls (h, hs) next =
    let moved =
      subst (λ gs. Yields items (some (open_func n gs none none)) ls out)
        (sym (append_assoc fs (m ∷ []) ms)) next in
    Yields-line (member_line (codes "param") m) (map_list (member_line (codes "param")) ms ++ ls)
      items items out (some (open_func n fs none none)) (open_func n (fs ++ m ∷ []) none none) refl
      (param-Reads items n fs m h) (Yields-params ms (fs ++ m ∷ []) items out n ls hs moved)

-- The open item that an item's lines leave behind.
abbrev left_open : Item → Open
left_open (record_item n fields) = open_record n fields
left_open (variant_item n cases) = open_variant n cases
left_open (func_item n params ret sem) = open_func n params (some ret) sem
left_open (resource_item n) = open_resource n

close-left_open : (item : Item) → close (left_open item) ≡ ok item
unfolding close
close-left_open (record_item n fields) = refl
close-left_open (variant_item n cases) = refl
close-left_open (func_item n params ret sem) = refl
close-left_open (resource_item n) = refl

-- A default semantics has no line, and every other has one.
Yields-sem :
    (items out : List Item) (n : Text) (ps : List (Text × Ty)) (t : Ty) (sem : Option FuncSem)
    (ls : List Text)
    → SemOk sem
    → Yields items (some (open_func n ps (some t) (normal_sem sem))) ls out
    → Yields items (some (open_func n ps (some t) none)) (sem_lines sem ++ ls) out
Yields-sem items out n ps t none ls h next = next
Yields-sem items out n ps t (some s) ls h next = go (is_default_sem s) next
  where
    go :
        (default : Bool)
        → Yields items (some (open_func n ps (some t) (if default then none else some s))) ls out
        → Yields items
            (some (open_func n ps (some t) none))
            ((if default then [] else sem_text s ∷ []) ++ ls)
            out
    go true next = next
    go false next =
        Yields-line (sem_text s) ls items items out (some (open_func n ps (some t) none))
          (open_func n ps (some t) (some s)) refl (sem-Reads items n ps t s h) next

Yields-item :
    (item : Item) (items done out : List Item) (cur : Option Open) (ls : List Text)
    → settle items cur ≡ ok done
    → ItemOk item
    → Yields done (some (left_open (normal item))) ls out
    → Yields items cur (item_lines item ++ ls) out
unfolding item_lines two_tokens
Yields-item (record_item n fields) items done out cur ls hs (hn, h) next =
    Yields-line (words (codes "record") n) (map_list (member_line (codes "field")) fields ++ ls)
      items done out cur (open_record n []) refl
      (header-Reads (codes "record") n (open_record n []) items done cur refl refl hn hs)
      (Yields-fields fields [] done out n ls h next)
Yields-item (variant_item n cases) items done out cur ls hs (hn, h) next =
    Yields-line (words (codes "variant") n) (map_list case_text cases ++ ls) items done out cur
      (open_variant n []) refl
      (header-Reads (codes "variant") n (open_variant n []) items done cur refl refl hn hs)
      (Yields-cases cases [] done out n ls h next)
Yields-item (func_item n params ret sem) items done out cur ls hs (hn, (hp, (hr, hsem))) next =
    let last = words (codes "ret") (render_ty ret) in
    let body = map_list (member_line (codes "param")) params in
    let after =
      Yields-line last (sem_lines sem ++ ls) done done out (some (open_func n params none none))
        (open_func n params (some ret) none) refl (ret-Reads done n params ret hr)
        (Yields-sem done out n params ret sem ls hsem next) in
    subst (λ l. Yields items cur (words (codes "func") n ∷ l) out)
      (sym (append_assoc body (last ∷ sem_lines sem) ls))
      (Yields-line (words (codes "func") n) (body ++ last ∷ (sem_lines sem ++ ls)) items done out
        cur (open_func n [] none none) refl
        (header-Reads (codes "func") n (open_func n [] none none) items done cur refl refl hn hs)
        (Yields-params params [] done out n (last ∷ (sem_lines sem ++ ls)) hp after))
Yields-item (resource_item n) items done out cur ls hs hn next =
    Yields-line (words (codes "resource") n) ls items done out cur (open_resource n) refl
      (header-Reads (codes "resource") n (open_resource n) items done cur refl refl hn hs) next

settle-left_open :
    (item : Item) (done : List Item) → settle done (some (left_open item)) ≡ ok (done ++ item ∷ [])
unfolding settle
settle-left_open item done = rw (close-left_open item) refl

-- Lines that end with the piece after the last line feed, which is blank.
Yields-end :
    (done before : List Item) (cur : Option Open)
    → settle before cur ≡ ok done
    → Yields before cur ([] ∷ []) done
unfolding read_lines read_line finish
Yields-end done before cur hs n last = rw hs refl

Yields-universe :
    (items done : List Item) (before : List Item) (cur : Option Open)
    → settle before cur ≡ ok done
    → All ItemOk items
    → Yields before cur (all_lines items ++ [] ∷ []) (done ++ normals items)
Yields-universe [] done before cur hs h =
    subst (Yields before cur ([] ∷ [])) (sym (append-nil done)) (Yields-end done before cur hs)
Yields-universe (item ∷ items) done before cur hs (h, hi) =
    let lines = all_lines items ++ [] ∷ [] in
    let kept = normal item in
    let later : settle done (some (left_open kept)) ≡ ok (done ++ kept ∷ []) =
      settle-left_open kept done in
    let rest =
      subst (Yields done (some (left_open kept)) lines)
        (append_assoc done (kept ∷ []) (normals items))
        (Yields-universe items (done ++ kept ∷ []) done (some (left_open kept)) later hi) in
    subst (λ l. Yields before cur l (done ++ kept ∷ normals items))
      (sym (append_assoc (item_lines item) (all_lines items) ([] ∷ [])))
      (Yields-item item before done (done ++ kept ∷ normals items) cur lines hs h rest)

All-one_line : (ls : List Text) → All IsLine ls → All (λ l. every (differs 10) l ≡ true) ls
All-one_line [] h = tt
All-one_line (l ∷ ls) (h, hs) = (one_line l h, All-one_line ls hs)

parse_snapshot-normals :
    (items : List Item) → All ItemOk items → parse_snapshot (render items) ≡ ok (normals items)
unfolding parse_snapshot render settle
parse_snapshot-normals items h =
    let lines = all_lines items in
    let cut : split 10 (join_lines lines) ≡ lines ++ [] ∷ [] =
      ap (split 10) (sym (append-nil (join_lines lines)))
      ∙ split-join_lines lines [] (All-one_line lines (all_lines-IsLine items h)) in
    ap (λ l. read_lines 1 l nothing_read >>= finish) cut
    ∙ Yields-universe items [] [] none refl h 1 0

-- The text that the writer gives for a universe of items that it admits parses back to exactly
-- those items, a default semantics left out of each, when each type nests at most 64 deep and each
-- tensor dimension is a `u64`; and the items that come back have that text again.
pub parse_snapshot-render :
    (items : List Item)
    → All ItemOk items
    → (parse_snapshot (render items) ≡ ok (normals items)) × (render (normals items) ≡ render items)
parse_snapshot-render items h = (parse_snapshot-normals items h, render-normals items)
