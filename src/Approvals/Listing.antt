-- ===== src/Approvals/Listing.antt =====
-- The lists of core/approvals/approvals-repository.ts and approvals-service.ts, page by page.
pub mod Pages
use cloud_commitment_portfol.Base.{
  ℕ, zero, suc, ◌+◌, Bool, true, false, ◌&&◌, ◌||◌, ◌==◌, Option, none, some, List, [], ◌∷◌, ◌++◌,
  map, filter, take, get_last?, length, ltb, if◌then◌else◌, ◌>>=◌,
}
use cloud_commitment_portfol.Base.Int.{ℤ, pos, negsuc, ltb_ℤ}
use cloud_commitment_portfol.Base.Sort.{sort}
use cloud_commitment_portfol.Base.Text.{Text, text_eq, compare_text}
use cloud_commitment_portfol.Approvals.{ApprovalStatus, Approval}
use cloud_commitment_portfol.Approvals.Input.{
  Engine, ApprovalCursor, ListInput, status_text, encode_approval_cursor, cursor_text,
}

-- `$2 IS NULL OR …`.
abbrev pub null_or : {A : Type 0} → (A → Bool) → Option A → Bool
null_or test none = true
null_or test (some x) = test x

abbrev pub is_some_text : Option Text → Text → Bool
is_some_text none t = false
is_some_text (some s) t = text_eq s t

-- The conditions of the query on the tenant and the filters.
unfoldable pub selects : Text → ListInput → Approval → Bool
unfolding status_text
selects tenant_id input a =
    text_eq a.tenant_id tenant_id
    && null_or (λ s. text_eq (status_text a.status) (status_text s)) input.status
    && null_or (is_some_text a.assigned_to_user_id) input.assigned_to_user_id
    && null_or (text_eq a.recommendation_id) input.recommendation_id

-- `(requested_at, id) < ($5::timestamptz, $6::uuid)`; the order of uuids is that of their texts.
unfoldable pub comes_after : ℕ → Text → Approval → Bool
comes_after requested_at id a =
    ltb a.requested_at requested_at
    || (a.requested_at == requested_at && ltb_ℤ (compare_text a.id id) (pos 0))

-- `ORDER BY requested_at DESC, id DESC`.
unfoldable pub compare_listed : Approval → Approval → ℤ
compare_listed a b =
    if ltb b.requested_at a.requested_at
    then negsuc 0
    else if ltb a.requested_at b.requested_at
    then pos 1
    else compare_text b.id a.id

-- The condition of the cursor; `none` where the cast fails.
abbrev pub after_cursor : Engine → Option ApprovalCursor → Option (Approval → Bool)
after_cursor e none = some (λ a. true)
after_cursor e (some c) = do t ← e.timestamptz c.requested_at; some (comes_after t c.id)

-- `list` of the repository.
unfoldable pub list_rows : Engine → Text → ListInput → List Approval → Option (List Approval)
unfolding selects comes_after compare_listed
list_rows e tenant_id input rows = do
  after ← after_cursor e input.cursor
  some (
      take (suc input.limit)
        (sort compare_listed (filter (λ a. selects tenant_id input a && after a) rows)))

pub record ListPage : Type 0 where
  pub approvals : List Approval
  pub next_cursor : Option Text

abbrev pub cursor_at : Engine → Option Approval → Option Text
cursor_at e none = none
cursor_at e (some a) = some (encode_approval_cursor e (e.to_char a.requested_at) a.id)

abbrev pub page_of : Engine → ℕ → List Approval → ListPage
page_of e limit rows =
    let page = take limit rows in
    record {
      approvals = page;
      next_cursor = cursor_at e (if ltb limit (length rows) then get_last? page else none);
    }

-- `list` of the service, after the query is parsed.
unfoldable pub list_page : Engine → Text → ListInput → List Approval → Option ListPage
unfolding list_rows encode_approval_cursor
list_page e tenant_id input rows = do
  found ← list_rows e tenant_id input rows
  some (page_of e input.limit found)

-- A client that asks for page after page, with the cursor that the last one gave it: the approvals
-- of all pages. `none` where a call fails, or where the pages are more than `n`.
unfoldable pub walk : ℕ → Engine → Text → ListInput → List Approval → Option (List Approval)
walk zero e tenant_id input rows = none
walk (suc n) e tenant_id input rows = do
  page ← list_page e tenant_id input rows
  rest ← elim page.next_cursor [
    | none ↦ some []
    | some text ↦ do
      c ← cursor_text e text
      walk n e tenant_id (record input { cursor = some c }) rows
  ]
  some (page.approvals ++ rest)
