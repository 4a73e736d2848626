-- ===== src/Tests/Devices.antt =====
-- Runs of the CSV import.
use linbo_docker.Base.{◌≡◌, refl, true, [], ◌∷◌, length}
use linbo_docker.Text.{Text, codes, trim}
use linbo_docker.Text.Split.{join}
use linbo_docker.Import.{parse_csv_line, is_valid_ip}
use linbo_docker.Import.Rows.{CsvReport, CsvError, validate_csv, hosts_to_process}
use linbo_docker.Import.Distinct.{IsDistinct, validate_csv-IsDistinct}
use linbo_docker.Import.Report.{Agrees, validate_csv-Agrees}
use linbo_docker.Import.Lines.{parse_csv_line-join}

abbrev devices_file : Text
devices_file =
    codes
      "# rooms\nr1;pc01;win;AA-BB-CC-00-11-22;10.0.0.1;;;;role;;1\r\nr1;PC01;win;aa:bb:cc:00:11:33;DHCP\nr1;pc03\n"

abbrev devices_report : CsvReport
devices_report = validate_csv b';' devices_file

-- the second row has the name of the first, the third has too few fields
report-errors :
    devices_report.errors
    ≡ CsvError.duplicate_hostname 3 (codes "pc01") ∷ CsvError.not_enough_fields 4 ∷ []
unfolding validate_csv
report-errors = refl

report-hosts : length (hosts_to_process devices_report.rows) ≡ 1
unfolding validate_csv hosts_to_process
report-hosts = refl

is_valid_ip-lenient : is_valid_ip (codes "10.0.0x.1") ≡ true
unfolding is_valid_ip
is_valid_ip-lenient = refl

validate_csv-IsDistinct_example : IsDistinct (hosts_to_process devices_report.rows)
validate_csv-IsDistinct_example = validate_csv-IsDistinct b';' devices_file

validate_csv-Agrees_example : Agrees devices_report
validate_csv-Agrees_example = validate_csv-Agrees b';' devices_file

trim-pc01 : trim (codes "pc01") ≡ codes "pc01"
unfolding trim
trim-pc01 = refl

trim-nil : trim [] ≡ []
unfolding trim
trim-nil = refl

parse_csv_line-join_example :
    parse_csv_line b';' (codes "pc01;;pc01") ≡ codes "pc01" ∷ [] ∷ codes "pc01" ∷ []
unfolding join
parse_csv_line-join_example =
    parse_csv_line-join b';' (codes "pc01") ([] ∷ codes "pc01" ∷ []) refl
      ((refl, trim-pc01), ((refl, trim-nil), ((refl, trim-pc01), tt)))
