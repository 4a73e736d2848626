-- ===== src/Import/Report.antt =====
-- containers/api/src/services/deviceImport.service.js: how the rows, the errors, the counts and the
-- hosts to process of one `validateCsv` go together.
use linbo_docker.Base.{
  ℕ, suc, ◌+◌, ◌≤◌, ◌<◌, ◌≡◌, ◌↔◌, refl, ap, ◌∙◌, Bool, true, false, ◌&&◌, some, List, [], ◌∷◌,
  ◌++◌, inl, inr, arith, ltb, length, keep, all, All, Bool-cases, Option-cases,
}
use linbo_docker.Text.{Text, includes}
use linbo_docker.Import.{Row, parse_csv}
use linbo_docker.Import.Rows.{
  Device, RowResult, CheckedRow, CsvError, CsvWarning, see, refuse, imported_from, hosts_to_process,
  refuse_duplicates, check_rows, validate_csv_row, validate_rows, validate_csv, CsvReport,
  report_of, empty_report, row_errors, row_warnings, device_of, result_of, no_errors, all_errors,
  is_valid_row, duplicate_mac, duplicate_hostname,
}
use linbo_docker.Import.Accepted.{IsDevice, device_of-IsDevice}

-- A result is valid just if it has no errors, and a valid one carries a usable device.
record IsSound (r : RowResult) : Type 0 where
  errors_agree : no_errors r.errors ≡ r.valid
  has_device : r.valid ≡ true → (d : Device) × (r.data_of ≡ some d) × IsDevice d

result_of-IsSound :
    (es : List CsvError) (ws : List CsvWarning) (d : Device)
    → (es ≡ [] → IsDevice d)
    → IsSound (result_of es ws d)
unfolding result_of
result_of-IsSound [] ws d h = record { errors_agree = refl; has_device = λ _. (d, refl, h refl) }
result_of-IsSound (e ∷ es) ws d h = record { errors_agree = refl; has_device = λ v. cc }

validate_csv_row-IsSound : (row : Row) → IsSound (validate_csv_row row)
unfolding validate_csv_row
validate_csv_row-IsSound row = elim (Bool-cases (ltb (length row.fields) 5)) [
  | inl few ↦ rw few (record { errors_agree = refl; has_device = λ v. cc })
  | inr enough ↦ rw enough (
      result_of-IsSound (row_errors row.line_number row.fields)
        (row_warnings row.line_number row.fields) (device_of row.fields)
        (device_of-IsDevice row.line_number row.fields))
]

no_errors-append : (es : List CsvError) (e : CsvError) → no_errors (es ++ e ∷ []) ≡ false
no_errors-append [] e = refl
no_errors-append (x ∷ es) e = refl

refuse-IsSound : (b : Bool) (e : CsvError) (r : RowResult) → IsSound r → IsSound (refuse b e r)
refuse-IsSound true e r h = record {
  errors_agree = no_errors-append r.errors e;
  has_device = λ v. cc;
}
refuse-IsSound false e r h = h

AllSound : List CheckedRow → Type 0
AllSound = All (λ r. IsSound r.result)

check_rows-IsSound :
    (macs names : List Text) (rows : List Row) → AllSound (check_rows macs names rows)
unfolding check_rows refuse_duplicates AllSound
check_rows-IsSound macs names [] = tt
check_rows-IsSound macs names (row ∷ rows) = elim (Option-cases (validate_csv_row row).data_of) [
  | inl e ↦ rw (e, check_rows) (validate_csv_row-IsSound row, check_rows-IsSound macs names rows)
  | inr (d, e) ↦
      rw (e, check_rows)
        (
          refuse-IsSound (includes names d.hostname) (duplicate_hostname row.line_number d.hostname)
              (refuse (includes macs d.mac_address) (duplicate_mac row.line_number d.mac_address)
                (validate_csv_row row))
              (refuse-IsSound (includes macs d.mac_address)
                (duplicate_mac row.line_number d.mac_address) (validate_csv_row row)
                (validate_csv_row-IsSound row)),
          check_rows-IsSound (see macs d.mac_address) (see names d.hostname) rows,
        )
]

no_errors-++ : (es fs : List CsvError) → no_errors (es ++ fs) ≡ (no_errors es && no_errors fs)
no_errors-++ [] fs = refl
no_errors-++ (e ∷ es) fs = refl

-- The report has no errors just if all its rows are valid.
no_errors-all_errors :
    (rs : List CheckedRow) → AllSound rs → no_errors (all_errors rs) ≡ all is_valid_row rs
unfolding all_errors AllSound
no_errors-all_errors [] h = refl
no_errors-all_errors (r ∷ rs) (h, k) =
    no_errors-++ r.result.errors (all_errors rs)
    ∙ rw (h.errors_agree, no_errors-all_errors rs k) refl

imported_from-valid :
    (r : RowResult) (ds : List Device) (d : Device)
    → r.data_of ≡ some d
    → r.valid ≡ true
    → imported_from r ds ≡ d ∷ ds
imported_from-valid r ds d e v = rw (e, v) refl

imported_from-invalid :
    (r : RowResult) (ds : List Device) → r.valid ≡ false → imported_from r ds ≡ ds
imported_from-invalid r ds v = elim (Option-cases r.data_of) [
  | inl e ↦ rw e refl
  | inr (d, e) ↦ rw (e, v) refl
]

-- The hosts to process are as many as the valid rows, and each is a usable device.
abbrev Processed : List CheckedRow → List Device → Type 0
Processed rs ds = (length ds ≡ length (keep is_valid_row rs)) × All IsDevice ds

hosts_to_process-Processed :
    (rs : List CheckedRow) → AllSound rs → Processed rs (hosts_to_process rs)
unfolding hosts_to_process AllSound
hosts_to_process-Processed [] h = (refl, tt)
hosts_to_process-Processed (r ∷ rs) (h, k) =
    let (n, ds) = hosts_to_process-Processed rs k in
    elim (Bool-cases r.result.valid) [
      | inl v ↦
          let (d, e, good) = h.has_device v in
          rw (imported_from-valid r.result (hosts_to_process rs) d e v, v) (ap suc n, (good, ds))
      | inr v ↦ rw (imported_from-invalid r.result (hosts_to_process rs) v, v) (n, ds)
    ]

keep-le : (rs : List CheckedRow) → length (keep is_valid_row rs) ≤ length rs
keep-le [] = omega arith
keep-le (r ∷ rs) = elim (Bool-cases r.result.valid) [
  | inl v ↦ rw v (omega (arith, keep-le rs))
  | inr v ↦ rw v (omega (arith, keep-le rs))
]

-- All rows are valid just if as many are kept.
keep-all :
    (rs : List CheckedRow)
    → (all is_valid_row rs ≡ true) ↔ (length (keep is_valid_row rs) ≡ length rs)
keep-all [] = ground arith
keep-all (r ∷ rs) = elim (Bool-cases r.result.valid) [
  | inl v ↦ rw v (ground (arith, keep-all rs))
  | inr v ↦ rw v (ground (arith, keep-le rs))
]

-- the statement about one report
pub record Agrees (r : CsvReport) : Type 0 where
  pub total_is : r.total ≡ r.valid_count + r.invalid_count
  pub processed : length (hosts_to_process r.rows) ≡ r.valid_count
  pub devices : All IsDevice (hosts_to_process r.rows)
  pub valid_iff : (r.is_valid ≡ true) ↔ ((0 < r.total) × (r.invalid_count ≡ 0))

report_of-Agrees : (rs : List CheckedRow) → 0 < length rs → AllSound rs → Agrees (report_of rs)
report_of-Agrees rs some_rows h =
    let (n, ds) = hosts_to_process-Processed rs h in
    let few = keep-le rs in
    let same = no_errors-all_errors rs h in
    let every = keep-all rs in
    record {
      total_is = omega arith;
      processed = n;
      devices = ds;
      valid_iff = rw same (ground (arith, few, every));
    }

length-check_rows :
    (macs names : List Text) (rows : List Row) → length (check_rows macs names rows) ≡ length rows
unfolding check_rows
length-check_rows macs names [] = refl
length-check_rows macs names (row ∷ rows) = elim (Option-cases (validate_csv_row row).data_of) [
  | inl e ↦ rw (e, check_rows) (ap suc (length-check_rows macs names rows))
  | inr (d, e) ↦
      rw (e, check_rows)
        (ap suc (length-check_rows (see macs d.mac_address) (see names d.hostname) rows))
]

empty-Agrees : Agrees empty_report
unfolding hosts_to_process
empty-Agrees = record { total_is = refl; processed = refl; devices = tt; valid_iff = ground arith }

validate_rows-Agrees : (rows : List Row) → Agrees (validate_rows rows)
unfolding validate_rows
validate_rows-Agrees [] = empty-Agrees
validate_rows-Agrees (row ∷ rows) =
    report_of-Agrees (check_rows [] [] (row ∷ rows))
      (omega (arith, length-check_rows [] [] (row ∷ rows))) (check_rows-IsSound [] [] (row ∷ rows))

-- Whatever the CSV file holds: the total is the number of valid and of invalid rows, the hosts to
-- process are as many as the valid rows, each of them has a room, a well-formed name, a normalized
-- MAC address and an IP address that passes the test or none, and the report is valid just if it
-- has rows and none of them is invalid.
pub validate_csv-Agrees : (delimiter : ℕ) (content : Text) → Agrees (validate_csv delimiter content)
unfolding validate_csv
validate_csv-Agrees delimiter content = validate_rows-Agrees (parse_csv delimiter content)
