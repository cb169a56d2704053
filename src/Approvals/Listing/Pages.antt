-- ===== src/Approvals/Listing/Pages.antt =====
-- The pages of a list, one after the other, are the whole list.
use cloud_commitment_portfol.Base.{
  ℕ, zero, suc, ◌≤◌, ◌<◌, ◌≡◌, refl, sym, ap, ◌∙◌, subst, inl, inr, Bool, true, false, ◌&&◌, Option,
  none, some, List, [], ◌∷◌, ◌++◌, filter, filter-cons_false, take, drop, get_last?, length,
  length-drop, take-append_drop, take-take-suc, take_all, take-ends, ltb-length-take-suc,
  filter-append, filter_none, filter_each, filter-filter, count, count_le_length, length-filter,
  count-append, count-filter, count-le, All-each, All-filter, count_zero-All, All, All-weaken,
  All-append_back, All-zip, ltb, if◌then◌else◌, Bool-cases, arith,
}
use mathlib.Core.List.{append-nil, append_assoc}
use cloud_commitment_portfol.Base.Json.{member}
use cloud_commitment_portfol.Base.Sort.{
  sort, IsOrder, IsSorted, Before, sort-IsSorted, filter-sort, IsSorted-around, count-sort,
  length-sort, All-sort,
}
use cloud_commitment_portfol.Base.Text.{Text, text_eq, text_eq_iff}
use cloud_commitment_portfol.Base.Text.Order.{
  compare_text_total, compare_text_trans, compare_text_strict, compare_text_apart,
}
use cloud_commitment_portfol.Approvals.{Approval}
use cloud_commitment_portfol.Approvals.Pending.{has_id}
use cloud_commitment_portfol.Approvals.Agreement.{both, text_eq_refl}
use cloud_commitment_portfol.Approvals.Input.{
  Engine, ApprovalCursor, ListInput, uuid_text, cursor_json, encode_approval_cursor, iso,
  uuid_member, cursor_of, cursor_text,
}
use cloud_commitment_portfol.Approvals.Listing.{
  selects, comes_after, compare_listed, after_cursor, list_rows, cursor_at, list_page, walk,
}

pub compare_listed-IsOrder : IsOrder compare_listed
unfolding compare_listed
compare_listed-IsOrder = record {
  total = λ x y. ground (arith, compare_text_total x.id y.id);
  transitive = λ x y z b c. ground (arith, compare_text_trans z.id y.id x.id);
}

-- What stands before an approval in the list does not come after its cursor.
not_after : (w z : Approval) → Before compare_listed w z → comes_after z.requested_at z.id w ≡ false
unfolding compare_listed comes_after
not_after w z b = ground (arith, compare_text_strict w.id z.id)

not_after_itself : (z : Approval) → comes_after z.requested_at z.id z ≡ false
unfolding comes_after
not_after_itself z = ground (arith, compare_text_strict z.id z.id, compare_text_total z.id z.id)

-- What stands behind it does, if it has another id.
is_after :
    (z y : Approval)
    → Before compare_listed z y
    → has_id z.id y ≡ false
    → comes_after z.requested_at z.id y ≡ true
unfolding compare_listed comes_after
is_after z y b apart = ground (arith, compare_text_apart y.id z.id, text_eq_iff y.id z.id)

-- What comes after the cursor of an approval of the list is what stands behind it.
cut :
    (ws : List Approval) (z : Approval) (ys : List Approval)
    → IsSorted compare_listed (ws ++ z ∷ ys)
    → count (has_id z.id) (ws ++ z ∷ ys) ≤ 1
    → filter (comes_after z.requested_at z.id) (ws ++ z ∷ ys) ≡ ys
cut ws z ys sorted once =
    let p = comes_after z.requested_at z.id in
    let (before, behind) = IsSorted-around compare_listed ws z ys sorted in
    let itself = text_eq_refl z.id in
    let apart : All (λ y. has_id z.id y ≡ false) ys =
      count_zero-All (has_id z.id) ys
        (let sum = count-append (has_id z.id) ws (z ∷ ys) in ground arith) in
    filter-append p ws (z ∷ ys)
    ∙ (rw
        (
          filter_none p ws (All-weaken (λ w b. not_after w z b) ws before),
          filter-cons_false p z ys (not_after_itself z),
        )
        (filter_each p ys (
          All-weaken (λ y k. is_after z y k.0 k.1) ys
            (All-zip (Before compare_listed z) (λ y. has_id z.id y ≡ false) ys behind apart))))

-- What the texts of a cursor need: the time and the id of the approval are read back.
abbrev pub Readable : Engine → Approval → Type 0
Readable e a =
    (uuid_text a.id ≡ some a.id)
    × (e.is_date (e.to_char a.requested_at) ≡ true)
    × (e.timestamptz (e.to_char a.requested_at) ≡ some a.requested_at)
    × (e.decode (encode_approval_cursor e (e.to_char a.requested_at) a.id)
        ≡ some (cursor_json (e.to_char a.requested_at) a.id))
    × (length (encode_approval_cursor e (e.to_char a.requested_at) a.id) ≤ 512)

abbrev cursor_for : Engine → Approval → ApprovalCursor
cursor_for e a = record { requested_at = e.to_char a.requested_at; id = a.id }

lt-ltb : (n m : ℕ) → ltb n m ≡ true → n < m
lt-ltb n m h = ground arith

le-ltb : (n m : ℕ) → n ≤ m → ltb m n ≡ false
le-ltb n m h = ground arith

-- The cursor that a page gives is the one that the next request reads.
cursor_text-encode :
    (e : Engine) (a : Approval)
    → Readable e a
    → cursor_text e (encode_approval_cursor e (e.to_char a.requested_at) a.id)
      ≡ some (cursor_for e a)
unfolding cursor_text cursor_of iso uuid_member member text_eq
cursor_text-encode e a (id_ok, date_ok, _, decoded, short) =
    let fits : ltb 512 (length (encode_approval_cursor e (e.to_char a.requested_at) a.id)) ≡ false =
      le-ltb _ 512 short in
    rw (fits, decoded, date_ok, id_ok) refl

module _ (e : Engine) (tenant_id : Text) (input : ListInput) (rows : List Approval) where
  -- The whole list: every approval that the filters select, the newest first.
  abbrev pub whole : List Approval
  whole = sort compare_listed (filter (selects tenant_id input) rows)

  list_rows-filter :
      (c : Option ApprovalCursor) {after : Approval → Bool}
      → after_cursor e c ≡ some after
      → list_rows e tenant_id (record input { cursor = c }) rows
        ≡ some (take (suc input.limit) (filter after whole))
  unfolding list_rows selects
  list_rows-filter c {after} h = rw h (
      ap (λ xs. some (take (suc input.limit) xs))
        (ap (sort compare_listed) (filter-filter (selects tenant_id input) after rows)
          ∙ sym (
              filter-sort compare_listed compare_listed-IsOrder after
                (filter (selects tenant_id input) rows))))

  list_page-rest :
      (c : Option ApprovalCursor) {after : Approval → Bool} (ys : List Approval)
      → after_cursor e c ≡ some after
      → filter after whole ≡ ys
      → list_page e tenant_id (record input { cursor = c }) rows
        ≡ some (record {
          approvals = take input.limit ys;
          next_cursor =
              cursor_at e
                (if ltb input.limit (length ys) then get_last? (take input.limit ys) else none);
        })
  unfolding list_page
  list_page-rest c ys h k =
      rw (list_rows-filter c h, k, take-take-suc input.limit ys, ltb-length-take-suc input.limit ys)
        refl

  -- A page that is not the last leaves what stands behind its last approval.
  walk-more :
      (n : ℕ) (c : Option ApprovalCursor) {after : Approval → Bool} (z : Approval)
      (ys : List Approval)
      → after_cursor e c ≡ some after
      → filter after whole ≡ ys
      → Readable e z
      → get_last? (take input.limit ys) ≡ some z
      → ltb input.limit (length ys) ≡ true
      → walk n e tenant_id (record input { cursor = some (cursor_for e z) }) rows
        ≡ some (drop input.limit ys)
      → walk (suc n) e tenant_id (record input { cursor = c }) rows ≡ some ys
  unfolding walk
  walk-more n c z ys h k readable last more rest =
      rw (list_page-rest c ys h k, more, last, cursor_text-encode e z readable, rest)
        (ap some (take-append_drop input.limit ys))

  walk-last :
      (n : ℕ) (c : Option ApprovalCursor) {after : Approval → Bool} (ys : List Approval)
      → after_cursor e c ≡ some after
      → filter after whole ≡ ys
      → ltb input.limit (length ys) ≡ false
      → walk (suc n) e tenant_id (record input { cursor = c }) rows ≡ some ys
  unfolding walk
  walk-last n c ys h k few =
      rw (list_page-rest c ys h k, few)
        (ap some (append-nil _ ∙ take_all input.limit ys (ground arith)))

  module _ (positive : 1 ≤ input.limit) (once : (id : Text) → count (has_id id) rows ≤ 1)
      (readable : All (Readable e) rows) where
    whole-once : (id : Text) → count (has_id id) whole ≤ 1
    whole-once id =
        let chosen = filter (selects tenant_id input) rows in
        omega (
          arith,
          count-sort compare_listed (has_id id) chosen,
          count-filter (selects tenant_id input) (has_id id) rows,
          count-le (λ a. selects tenant_id input a && has_id id a) (has_id id) rows
              (All-each (λ a k. (both (selects tenant_id input a) (has_id id a) k).1) rows),
          once id,
        )

    whole-Readable : All (Readable e) whole
    whole-Readable = All-sort compare_listed (Readable e) _ (
        All-weaken (λ a k. k.0) _ (All-filter (Readable e) (selects tenant_id input) rows readable))

    -- One page more, given that the rest of the walk is right.
    walk-step :
        (n : ℕ) (c : Option ApprovalCursor) {after : Approval → Bool} (ws ms : List Approval)
        (z : Approval) (ys : List Approval)
        → after_cursor e c ≡ some after
        → filter after whole ≡ ys
        → whole ≡ ws ++ ys
        → ys ≡ ms ++ z ∷ drop input.limit ys
        → get_last? (take input.limit ys) ≡ some z
        → ltb input.limit (length ys) ≡ true
        → ((ws' : List Approval)
            → after_cursor e (some (cursor_for e z)) ≡ some (comes_after z.requested_at z.id)
            → filter (comes_after z.requested_at z.id) whole ≡ drop input.limit ys
            → whole ≡ ws' ++ drop input.limit ys
            → walk n e tenant_id (record input { cursor = some (cursor_for e z) }) rows
              ≡ some (drop input.limit ys))
        → walk (suc n) e tenant_id (record input { cursor = c }) rows ≡ some ys
    walk-step n c ws ms z ys h k s ends last more rest =
        let parts : whole ≡ (ws ++ ms) ++ z ∷ drop input.limit ys =
          s ∙ ap (λ l. ws ++ l) ends ∙ sym (append_assoc ws ms (z ∷ drop input.limit ys)) in
        let behind : filter (comes_after z.requested_at z.id) whole ≡ drop input.limit ys =
          ap (filter (comes_after z.requested_at z.id)) parts
          ∙ cut (ws ++ ms) z (drop input.limit ys)
              (subst (IsSorted compare_listed) parts
                (sort-IsSorted compare_listed compare_listed-IsOrder _))
              (subst (λ l. count (has_id z.id) l ≤ 1) parts (whole-once z.id)) in
        let (_, (r, _)) =
          All-append_back (Readable e) (ws ++ ms) (z ∷ drop input.limit ys)
            (subst (All (Readable e)) parts whole-Readable) in
        walk-more n c z ys h k r last more (
          rest ((ws ++ ms) ++ z ∷ []) (rw r.2 refl) behind
            (parts ∙ sym (append_assoc (ws ++ ms) (z ∷ []) (drop input.limit ys))))

    walk-rest :
        (n : ℕ) (c : Option ApprovalCursor) {after : Approval → Bool} (ws ys : List Approval)
        → after_cursor e c ≡ some after
        → filter after whole ≡ ys
        → whole ≡ ws ++ ys
        → length ys < n
        → walk n e tenant_id (record input { cursor = c }) rows ≡ some ys
    walk-rest zero c ws ys h k s short = absurd (omega arith)
    walk-rest (suc n) c ws ys h k s short = elim (Bool-cases (ltb input.limit (length ys))) [
      | inr few ↦ walk-last n c ys h k few
      | inl more ↦
          let (ms, z, ends, last) = take-ends input.limit ys positive (lt-ltb _ _ more) in
          walk-step n c ws ms z ys h k s ends last more (λ ws' h' k' s'.
            walk-rest n (some (cursor_for e z)) ws' (drop input.limit ys) h' k' s'
              (omega (arith, length-drop input.limit ys, lt-ltb input.limit (length ys) more)))
    ]

-- Whoever follows the cursors from the first page, the rows staying as they are, sees every approval that the filters select
-- exactly once, the newest first, and then no cursor: where the limit is positive, no two approvals
-- share an id, and the engine reads back the times and ids that it printed.
pub walk-whole :
    (e : Engine) (tenant_id : Text) (input : ListInput) (rows : List Approval)
    → 1 ≤ input.limit
    → ((id : Text) → count (has_id id) rows ≤ 1)
    → All (Readable e) rows
    → walk (suc (length rows)) e tenant_id (record input { cursor = none }) rows
      ≡ some (sort compare_listed (filter (selects tenant_id input) rows))
walk-whole e tenant_id input rows positive once readable =
    walk-rest e tenant_id input rows positive once readable (suc (length rows)) none []
      (whole e tenant_id input rows) refl (filter_each (λ a. true) _ (All-each (λ a. refl) _)) refl
      (omega (
        arith,
        length-sort compare_listed (filter (selects tenant_id input) rows),
        length-filter (selects tenant_id input) rows,
        count_le_length (selects tenant_id input) rows,
      ))
