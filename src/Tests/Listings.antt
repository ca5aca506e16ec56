-- ===== src/Tests/Listings.antt =====
-- A listing of one day's file with an empty line, a line that does not decode and two records.
use zero_trust_service.Common.{
  length, ◌-◌, ℕ, zero, suc, ◌/◌, ◌≤◌, ◌+◌, ◌≡◌, refl, ◌↔◌, pos, String, true, some, List, [], ◌∷◌,
  ◌++◌, Elem, arith,
}
use zero_trust_service.Fault.{message, Result, ok, err}
use zero_trust_service.Types.{Bytes}
use zero_trust_service.State.{Record}
use zero_trust_service.AuditReader.{
  ListRequest, matches_verify_filters, nanoseconds_per_day, days_from, dates_to_scan,
  paginate_range, page, keep_record, keep_line, scan_verify_file, scan_result, scan_days,
}
use zero_trust_service.AuditReader.Matched.{IsStored, scan_days-dates_iff}
use zero_trust_service.AuditReader.Pages.{smaller, page_tiles}

abbrev entry : String → Record
entry account = record {
  id = "id";
  start_time = 90000000000000;
  end_time = 90000000000001;
  account_id = account;
  task_id = "t1";
  task_type = "SHELL";
  delegate_id = "";
  delegate_instance_id = "";
  git_ops_agent_id = "";
  allowed = true;
  failed_validator = "";
  reason = "";
  error = "";
  duration = pos 1;
  validators_run = [];
}

abbrev decode_line : Bytes → Result Record
decode_line [] = err (message "syntax")
decode_line (zero ∷ line) = err (message "syntax")
decode_line (suc zero ∷ line) = ok (entry "acme")
decode_line (suc (suc b) ∷ line) = ok (entry "other")

-- The file of the day after the epoch; there are no others.
abbrev read_day : ℕ → Result (List Bytes)
read_day zero = err (message "no such file")
read_day (suc zero) = ok ([] ∷ (0 ∷ []) ∷ (1 ∷ []) ∷ (2 ∷ []) ∷ [])
read_day (suc (suc day)) = err (message "no such file")

abbrev wanted : ListRequest
wanted = record {
  kind = "verify";
  from_time = 0;
  to_time = 100000000000000;
  account_id = "acme";
  task_type = "";
  task_id = "";
  allowed = some true;
  limit = 10;
  offset = 0;
}

found : scan_days decode_line wanted read_day (dates_to_scan 0 100000000000000) ≡ entry "acme" ∷ []
unfolding scan_days dates_to_scan days_from scan_result scan_verify_file keep_line keep_record
    matches_verify_filters
found = refl

scan_days-dates_iff_example :
    Elem (entry "acme") (scan_days decode_line wanted read_day (dates_to_scan 0 100000000000000))
    ↔ ((day : ℕ) × ((0 / nanoseconds_per_day ≤ day) × (day ≤ 100000000000000 / nanoseconds_per_day))
        × IsStored decode_line wanted read_day day (entry "acme"))
scan_days-dates_iff_example = scan_days-dates_iff decode_line wanted read_day (entry "acme")

abbrev three : List ℕ
three = 1 ∷ 2 ∷ 3 ∷ []

second_page : page three 2 2 ≡ some (3 ∷ [])
unfolding page paginate_range
second_page = refl

page_tiles_example :
    (before here there behind : List ℕ) × (page three 0 2 ≡ some here)
    × (page three (0 + 2) 2 ≡ some there)
    × (page three 0 (2 + 2) ≡ some (here ++ there))
    × (three ≡ before ++ (here ++ (there ++ behind)))
    × (length before ≡ smaller 0 (length three))
    × (length here ≡ smaller 2 (length three - 0))
    × (length there ≡ smaller 2 (length three - (0 + 2)))
page_tiles_example = page_tiles three 0 2 2 (omega arith)
