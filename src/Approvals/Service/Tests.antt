-- ===== src/Approvals/Service/Tests.antt =====
-- Two requests under uuids: their pages of one, and a decision on the first.
use mathlib.Core.Option
use cloud_commitment_portfol.Base.{
  ℕ, suc, ◌≡◌, refl, true, false, Option, some, none, List, [], ◌∷◌, ◌++◌, map, filter, length,
  arith,
}
use cloud_commitment_portfol.Base.Sort.{sort}
use cloud_commitment_portfol.Base.Text.{Text, codes, text_eq, compare_text, is_space}
use cloud_commitment_portfol.Base.Json.{Json, str, obj, end, field, as_object, string_at}
use cloud_commitment_portfol.Base.Action.{throw}
use cloud_commitment_portfol.Approvals.{
  Approval, Tables, approve, approved, pending, decided_status, get_approval, update_approvals,
  update_one, passes, transition,
}
use cloud_commitment_portfol.Approvals.Pending.{create_pending}
use cloud_commitment_portfol.Approvals.Tests.{directory, ask, ask_other, start_rows}
use cloud_commitment_portfol.Approvals.History.{
  Transaction, requests, after_all, history-Consistent,
}
use cloud_commitment_portfol.Approvals.Input.{
  Engine, ListInput, first_page, cursor_json, uuid_text, encode_approval_cursor, cursor_text,
}
use cloud_commitment_portfol.Approvals.Listing.{selects, compare_listed, list_page, walk}
use cloud_commitment_portfol.Approvals.Listing.Pages.{walk-whole}
use cloud_commitment_portfol.Approvals.Service.{answers, approvals_unavailable, decide_approval}
use cloud_commitment_portfol.Approvals.Service.Answers.{Answers, decide_approval-Answers}

-- An engine whose texts of times have one character, and whose cursors are two texts in a row.
abbrev decode_pair : Text → Option Json
decode_pair [] = none
decode_pair (t ∷ id) = some (cursor_json (t ∷ []) id)

abbrev time_of : Text → Option ℕ
time_of [] = none
time_of (t ∷ s) = some t

abbrev engine : Engine
engine = record {
  normalize = λ t. t;
  is_date = λ t. true;
  encode = λ j.
      string_at (as_object (some j)) (codes "requested_at")
      ++ string_at (as_object (some j)) (codes "id");
  decode = decode_pair;
  to_char = λ t. t ∷ [];
  timestamptz = time_of;
}

abbrev first_id : Text
first_id = codes "11111111-1111-4111-8111-111111111111"

abbrev second_id : Text
second_id = codes "22222222-2222-4222-8222-22222222222a"

abbrev both_asked : List Transaction
both_asked =
    requests directory (codes "t1") ask first_id 5
    ∷ requests directory (codes "t1") ask_other second_id 7
    ∷ []

abbrev asked_tables : Tables
asked_tables = after_all both_asked (record { approvals = []; recommendations = start_rows })

abbrev one_at_a_time : ListInput
one_at_a_time = record first_page { limit = 1; status = some pending }

-- The second page is there, the newest approval comes first.
two_pages :
    Option.map
      (map (λ (a : Approval). a.requested_at))
      (walk 2 engine (codes "t1") one_at_a_time asked_tables.approvals)
    ≡ some (7 ∷ 5 ∷ [])
unfolding create_pending text_eq string_at uuid_text encode_approval_cursor walk sort compare_listed
    cursor_text selects list_page compare_text
two_pages = refl

pages_example :
    walk
      (suc (length asked_tables.approvals))
      engine
      (codes "t1")
      (record one_at_a_time { cursor = none })
      asked_tables.approvals
    ≡ some
        (sort compare_listed (filter (selects (codes "t1") one_at_a_time) asked_tables.approvals))
unfolding create_pending text_eq string_at uuid_text encode_approval_cursor
pages_example =
    walk-whole engine (codes "t1") one_at_a_time asked_tables.approvals (omega arith)
      (history-Consistent both_asked start_rows).unique_ids
      ((refl, refl, refl, refl, omega arith), ((refl, refl, refl, refl, omega arith), tt))

abbrev reason_body : Json
reason_body = obj (field (codes "decision_reason") (str (codes "fits")) end)

approves_first :
    map
      (λ (a : Approval). a.status)
      (decide_approval engine
        (codes "t1")
        approve
        9
        (str first_id)
        reason_body
        answers
        false
        asked_tables).1.approvals
    ≡ approved ∷ pending ∷ []
unfolding create_pending text_eq decide_approval decided_status update_approvals update_one passes
    transition is_space get_approval
approves_first = refl

answers_example : Answers (codes "t1") approve answers true asked_tables (
    decide_approval engine
      (codes "t1")
      approve
      9
      (str first_id)
      reason_body
      answers
      true
      asked_tables)
answers_example =
    decide_approval-Answers engine (codes "t1") approve 9 (str first_id) reason_body answers true
      asked_tables (history-Consistent both_asked start_rows)

-- The query after the COMMIT fails: the caller is told that approvals are unavailable.
stored_and_unavailable :
    (decide_approval engine
      (codes "t1")
      approve
      9
      (str first_id)
      reason_body
      answers
      true
      asked_tables).0
    ≡ throw approvals_unavailable
unfolding create_pending text_eq decide_approval decided_status update_approvals update_one passes
    transition is_space get_approval
stored_and_unavailable = refl
