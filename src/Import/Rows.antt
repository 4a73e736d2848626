-- ===== src/Import/Rows.antt =====
-- `validateCsvRow` and `validateCsv` of containers/api/src/services/deviceImport.service.js. The
-- result of a row is a record, its `data` an option; the two `Set`s are lists.
use linbo_docker.Base.{
  ℕ, ◌-◌, Bool, true, false, not, ◌&&◌, Option, none, some, List, [], ◌∷◌, ◌++◌, ltb, ◌==◌,
  if◌then◌else◌, length, keep, get_elem?,
}
use linbo_docker.Text.{Text, codes, text_eq, includes, to_lower}
use linbo_docker.Text.Number.{ℤ, parse_int}
use linbo_docker.Import.{
  Row, normalize_mac, is_valid_mac, is_valid_ip, is_valid_hostname, parse_csv,
}

-- Each carries the number of its line and the text that it quotes.
pub data CsvError : Type 0 where
  empty_file : CsvError
  not_enough_fields room_required hostname_required config_required mac_required : ℕ → CsvError
  invalid_hostname invalid_mac invalid_ip duplicate_mac duplicate_hostname : ℕ → Text → CsvError

-- the line and the host's name
pub data CsvWarning : Type 0 where
  no_pxe_config pxe_disabled : ℕ → Text → CsvWarning

-- `none` for null, and for NaN in the flag
pub record Device : Type 0 where
  pub room : Text
  pub hostname : Text
  pub config_name : Option Text
  pub mac_address : Text
  pub ip_address : Option Text
  pub dhcp_options : Text
  pub computer_type : Text
  pub pxe_flag : Option ℤ
  pub is_pxe_enabled : Bool

pub record RowResult : Type 0 where
  pub valid : Bool
  pub errors : List CsvError
  pub warnings : List CsvWarning
  pub data_of : Option Device

-- `fields[i] || ''`
abbrev pub field : List Text → ℕ → Text
field fs i = elim (get_elem? fs i) [ none ↦ [] | some s ↦ s ]

abbrev pub is_empty : Text → Bool
is_empty [] = true
is_empty (c ∷ cs) = false

abbrev pub when {ℓ} : {A : Type ℓ} → Bool → A → List A
when true a = a ∷ []
when false a = []

-- `if (!s) … else if (!isOk(s)) …`
abbrev pub required : CsvError → (Text → Bool) → (Text → CsvError) → Text → List CsvError
required missing is_ok wrong s =
    if is_empty s then missing ∷ [] else if is_ok s then [] else wrong s ∷ []

abbrev pub any_text : Text → Bool
any_text s = true

abbrev pub is_dhcp : Text → Bool
is_dhcp ip = text_eq ip (codes "DHCP")

abbrev pub is_bad_ip : Text → Bool
is_bad_ip ip = not (is_empty ip) && not (is_dhcp ip) && not (is_valid_ip ip)

module _ (n : ℕ) (fs : List Text) where
  abbrev pub room_errors : List CsvError
  room_errors = required (room_required n) any_text (invalid_hostname n) (field fs 0)

  abbrev pub hostname_errors : List CsvError
  hostname_errors =
      required (hostname_required n) is_valid_hostname (invalid_hostname n) (field fs 1)

  abbrev pub config_errors : List CsvError
  config_errors = required (config_required n) any_text (invalid_hostname n) (field fs 2)

  abbrev pub mac_errors : List CsvError
  mac_errors = required (mac_required n) is_valid_mac (invalid_mac n) (field fs 3)

  abbrev pub ip_errors : List CsvError
  ip_errors = when (is_bad_ip (field fs 4)) (invalid_ip n (field fs 4))

  unfoldable pub row_errors : List CsvError
  unfolding is_valid_hostname is_valid_mac is_valid_ip text_eq
  row_errors = room_errors ++ hostname_errors ++ config_errors ++ mac_errors ++ ip_errors

abbrev pub is_nopxe : Text → Bool
is_nopxe config = text_eq config (codes "nopxe")

abbrev pub or_one : Text → Text
or_one [] = codes "1"
or_one (c ∷ cs) = c ∷ cs

unfoldable pub flag_of : List Text → Option ℤ
unfolding parse_int
flag_of fs = parse_int (or_one (field fs 10))

abbrev pub is_zero : Option ℤ → Bool
is_zero (some (ℤ.pos n)) = n == 0
is_zero _ = false

abbrev pub is_positive : Option ℤ → Bool
is_positive (some (ℤ.pos n)) = ltb 0 n
is_positive _ = false

unfoldable pub row_warnings : ℕ → List Text → List CsvWarning
unfolding flag_of text_eq
row_warnings n fs =
    when (is_nopxe (field fs 2)) (no_pxe_config n (field fs 1))
    ++ when (is_zero (flag_of fs)) (pxe_disabled n (field fs 1))

unfoldable pub device_of : List Text → Device
unfolding flag_of normalize_mac text_eq
device_of fs = record {
  room = to_lower (field fs 0);
  hostname = to_lower (field fs 1);
  config_name = if is_nopxe (field fs 2) then none else some (field fs 2);
  mac_address = normalize_mac (field fs 3);
  ip_address = if is_dhcp (field fs 4) then none else some (field fs 4);
  dhcp_options = field fs 7;
  computer_type = field fs 8;
  pxe_flag = flag_of fs;
  is_pxe_enabled = is_positive (flag_of fs) && not (is_nopxe (field fs 2));
}

-- the last part of `validateCsvRow`
unfoldable pub result_of : List CsvError → List CsvWarning → Device → RowResult
result_of [] ws device = record { valid = true; errors = []; warnings = ws; data_of = some device }
result_of (e ∷ es) ws device = record {
  valid = false;
  errors = e ∷ es;
  warnings = ws;
  data_of = none;
}

unfoldable pub validate_csv_row : Row → RowResult
unfolding row_errors row_warnings device_of result_of
validate_csv_row row =
    let n = row.line_number in
    if ltb (length row.fields) 5
    then record { valid = false; errors = not_enough_fields n ∷ []; warnings = []; data_of = none }
    else result_of (row_errors n row.fields) (row_warnings n row.fields) (device_of row.fields)

abbrev pub refuse : Bool → CsvError → RowResult → RowResult
refuse true e r = record r { valid = false; errors = r.errors ++ e ∷ [] }
refuse false e r = r

-- `set.add(s)` where `set.has(s)` is false
abbrev pub see : List Text → Text → List Text
see seen s = if includes seen s then seen else s ∷ seen

-- the two tests for duplicates
unfoldable pub refuse_duplicates : ℕ → List Text → List Text → Device → RowResult → RowResult
unfolding includes
refuse_duplicates n macs names device r =
    refuse (includes names device.hostname) (duplicate_hostname n device.hostname)
      (refuse (includes macs device.mac_address) (duplicate_mac n device.mac_address) r)

pub record CheckedRow : Type 0 where
  pub number : ℕ
  pub raw_line : Text
  pub result : RowResult

abbrev pub checked : Row → RowResult → CheckedRow
checked row r = record { number = row.line_number; raw_line = row.raw; result = r }

-- The loop of `validateCsv`: a row has data just if it is valid so far.
unfoldable pub check_rows : List Text → List Text → List Row → List CheckedRow
unfolding validate_csv_row refuse_duplicates includes
check_rows macs names [] = []
check_rows macs names (row ∷ rows) = elim (validate_csv_row row).data_of [
  | none ↦ checked row (validate_csv_row row) ∷ check_rows macs names rows
  | some device ↦
      checked row (refuse_duplicates row.line_number macs names device (validate_csv_row row))
      ∷ check_rows (see macs device.mac_address) (see names device.hostname) rows
]

unfoldable pub all_errors : List CheckedRow → List CsvError
all_errors [] = []
all_errors (r ∷ rs) = r.result.errors ++ all_errors rs

unfoldable pub all_warnings : List CheckedRow → List CsvWarning
all_warnings [] = []
all_warnings (r ∷ rs) = r.result.warnings ++ all_warnings rs

abbrev pub is_valid_row : CheckedRow → Bool
is_valid_row r = r.result.valid

pub record CsvReport : Type 0 where
  pub is_valid : Bool
  pub rows : List CheckedRow
  pub errors : List CsvError
  pub warnings : List CsvWarning
  pub total : ℕ
  pub valid_count : ℕ
  pub invalid_count : ℕ

abbrev pub no_errors : List CsvError → Bool
no_errors [] = true
no_errors (e ∷ es) = false

abbrev pub report_of : List CheckedRow → CsvReport
report_of rs = record {
  is_valid = no_errors (all_errors rs);
  rows = rs;
  errors = all_errors rs;
  warnings = all_warnings rs;
  total = length rs;
  valid_count = length (keep is_valid_row rs);
  invalid_count = length rs - length (keep is_valid_row rs);
}

abbrev pub empty_report : CsvReport
empty_report = record {
  is_valid = false;
  rows = [];
  errors = empty_file ∷ [];
  warnings = [];
  total = 0;
  valid_count = 0;
  invalid_count = 0;
}

unfoldable pub validate_rows : List Row → CsvReport
unfolding check_rows all_errors all_warnings
validate_rows [] = empty_report
validate_rows (row ∷ rows) = report_of (check_rows [] [] (row ∷ rows))

unfoldable pub validate_csv : ℕ → Text → CsvReport
unfolding validate_rows parse_csv
validate_csv delimiter content = validate_rows (parse_csv delimiter content)

abbrev pub imported_from : RowResult → List Device → List Device
imported_from r rest = elim r.data_of [
  | none ↦ rest
  | some device ↦ if r.valid then device ∷ rest else rest
]

-- `hostsToProcess`: the data of the valid rows
unfoldable pub hosts_to_process : List CheckedRow → List Device
hosts_to_process [] = []
hosts_to_process (r ∷ rs) = imported_from r.result (hosts_to_process rs)
