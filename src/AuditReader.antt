-- ===== src/AuditReader.antt =====
-- audit/file/reader.go: the listing of verify records from the files of the days in a range, with its
-- filters and pages. A time is in nanoseconds since the epoch, a day is its number, and `read` is what
-- the file of a day holds, line by line, or the error of opening or scanning it. A limit and an offset
-- are natural numbers, as the HTTP handler of the listing makes them.
pub mod Matched
pub mod Pages
use zero_trust_service.Common.{
  ℕ, zero, suc, ◌+◌, ◌-◌, ◌/◌, ◌^◌, String, Bool, true, false, not, Option, none, some, List, [],
  ◌∷◌, ◌++◌, ◌||◌, ◌&&◌, ◌==◌, if◌then◌else◌, ltb, leb, length,
}
use zero_trust_service.Fault.{Result, ok, err}
use zero_trust_service.Types.{Bytes}
use zero_trust_service.State.{Record}

pub record ListRequest : Type 0 where
  pub kind : String
  pub from_time : ℕ
  pub to_time : ℕ
  pub account_id : String
  pub task_type : String
  pub task_id : String
  pub allowed : Option Bool
  pub limit : ℕ
  pub offset : ℕ

-- A filter that is set and differs.
abbrev pub differs : String → String → Bool
differs wanted got = not (wanted == "") && not (got == wanted)

abbrev pub verdict_differs : Option Bool → Bool → Bool
verdict_differs none got = false
verdict_differs (some true) got = not got
verdict_differs (some false) got = got

-- `matchesVerifyFilters`.
unfoldable pub matches_verify_filters : Record → ListRequest → Bool
matches_verify_filters rec req =
    if ltb rec.start_time req.from_time || ltb req.to_time rec.start_time
    then false
    else if differs req.account_id rec.account_id
    then false
    else if differs req.task_type rec.task_type
    then false
    else if differs req.task_id rec.task_id
    then false
    else not (verdict_differs req.allowed rec.allowed)

-- The days of a time, and the loop of `datesToScan` over `count` days.
abbrev pub nanoseconds_per_day : ℕ
nanoseconds_per_day = 86400000000000

unfoldable pub days_from : ℕ → ℕ → List ℕ
days_from day zero = []
days_from day (suc count) = day ∷ days_from (suc day) count

-- `datesToScan`: from the day of `from` to that of `to`, none if the first is after the second.
unfoldable pub dates_to_scan : ℕ → ℕ → List ℕ
dates_to_scan from to =
    days_from (from / nanoseconds_per_day)
      (suc (to / nanoseconds_per_day) - from / nanoseconds_per_day)

-- `paginateRange`, for a sum that does not overflow.
unfoldable pub paginate_range : ℕ → ℕ → ℕ → ℕ × ℕ
paginate_range total offset limit =
    let start = if ltb total offset then total else offset in
    (start, if ltb total (start + limit) then total else start + limit)

module _ {A : Type 0} where
  abbrev pub take : ℕ → List A → List A
  take zero xs = []
  take (suc n) [] = []
  take (suc n) (x ∷ xs) = x ∷ take n xs

  abbrev pub drop : ℕ → List A → List A
  drop zero xs = xs
  drop (suc n) [] = []
  drop (suc n) (x ∷ xs) = drop n xs

  -- `matched[start:end]` for the range of a page. A sum that overflows is negative, and the slice
  -- panics: there is no page.
  unfoldable pub page : List A → ℕ → ℕ → Option (List A)
  page matched offset limit =
      let (start, end) = paginate_range (length matched) offset limit in
      if leb (2 ^ 63) (start + limit) then none else some (take (end - start) (drop start matched))

module _ (decode : Bytes → Result Record) (req : ListRequest) where
  unfoldable pub keep_record : Result Record → List Record
  keep_record (err e) = []
  keep_record (ok rec) = if matches_verify_filters rec req then rec ∷ [] else []

  unfoldable pub keep_line : Bytes → List Record
  keep_line [] = []
  keep_line (b ∷ line) = keep_record (decode (b ∷ line))

  -- The records that `scanVerifyFile` keeps; the count that it returns is their number.
  unfoldable pub scan_verify_file : List Bytes → List Record
  unfolding keep_line
  scan_verify_file [] = []
  scan_verify_file (line ∷ lines) = keep_line line ++ scan_verify_file lines

  unfoldable pub scan_result : Result (List Bytes) → List Record
  scan_result (err e) = []
  scan_result (ok lines) = scan_verify_file lines

  unfoldable pub scan_days : (ℕ → Result (List Bytes)) → List ℕ → List Record
  unfolding scan_result
  scan_days read [] = []
  scan_days read (day ∷ days) = scan_result (read day) ++ scan_days read days

pub record ListResponse : Type 0 where
  pub audits : List Record
  pub total : ℕ
  pub limit : ℕ
  pub offset : ℕ

respond_with : ListRequest → List Record → Option (List Record) → Option ListResponse
respond_with req matched none = none
respond_with req matched (some audits) =
    some
      (record { audits = audits; total = length matched; limit = req.limit; offset = req.offset })

-- `listVerify`; no response is a panic.
unfoldable pub list_verify :
    (Bytes → Result Record) → (ℕ → Result (List Bytes)) → ListRequest → Option ListResponse
unfolding respond_with
list_verify decode read req =
    let matched = scan_days decode req read (dates_to_scan req.from_time req.to_time) in
    respond_with req matched (page matched req.offset req.limit)
