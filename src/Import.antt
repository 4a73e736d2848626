-- ===== src/Import.antt =====
-- containers/api/src/services/deviceImport.service.js: the CSV file of devices, parsed and
-- validated. Messages are constructors that hold the parts of the text. A set of texts is a list.
pub mod Rows
pub mod Distinct
pub mod Accepted
pub mod Report
pub mod Lines
use linbo_docker.Base.{
  ℕ, zero, suc, ◌+◌, ◌-◌, Bool, true, false, not, ◌&&◌, ◌||◌, Option, none, some, List, [], ◌∷◌,
  ◌++◌, map, ltb, leb, ◌==◌, if◌then◌else◌, length, all, keep, get_elem?,
}
use linbo_docker.Text.{
  Text, codes, text_eq, includes, to_lower, trim, is_digit, is_alphanumeric, within,
}
use linbo_docker.Text.Split.{split}
use linbo_docker.Text.Number.{ℤ, parse_int}

abbrev pub is_hex : ℕ → Bool
is_hex c = is_digit c || within b'a' b'f' c

-- `/^([0-9a-f]{2}:){n}[0-9a-f]{2}$/`
unfoldable pub hex_pairs : ℕ → Text → Bool
hex_pairs zero (a ∷ b ∷ []) = is_hex a && is_hex b
hex_pairs (suc n) (a ∷ b ∷ c ∷ rest) = is_hex a && (is_hex b && (c == b':' && hex_pairs n rest))
hex_pairs _ _ = false

abbrev pub dash_to_colon : ℕ → ℕ
dash_to_colon c = if c == b'-' then b':' else c

unfoldable pub normalize_mac : Text → Text
normalize_mac mac = map dash_to_colon (to_lower mac)

unfoldable pub is_valid_mac : Text → Bool
unfolding normalize_mac hex_pairs
is_valid_mac [] = false
is_valid_mac (c ∷ cs) = hex_pairs 5 (normalize_mac (c ∷ cs))

abbrev pub is_octet : Option ℤ → Bool
is_octet none = false
is_octet (some (ℤ.negsuc n)) = false
is_octet (some (ℤ.pos n)) = leb n 255

unfoldable pub is_valid_ip : Text → Bool
unfolding text_eq split parse_int
is_valid_ip [] = true
is_valid_ip (c ∷ cs) =
    if text_eq (c ∷ cs) (codes "DHCP")
    then true
    else (let parts = split b'.' (c ∷ cs) in
        if length parts == 4 then all (λ p. is_octet (parse_int p)) parts else false)

-- the last character of the text is a letter or a digit
abbrev pub ends_alphanumeric : Text → Bool
ends_alphanumeric [] = false
ends_alphanumeric (c ∷ []) = is_alphanumeric c
ends_alphanumeric (c ∷ d ∷ cs) = ends_alphanumeric (d ∷ cs)

abbrev pub is_host_char : ℕ → Bool
is_host_char c = is_alphanumeric c || c == b'-'

-- `/^[a-z0-9]([a-z0-9-]*[a-z0-9])?$/i`
unfoldable pub is_valid_hostname : Text → Bool
is_valid_hostname [] = false
is_valid_hostname (c ∷ cs) =
    is_alphanumeric c && (all is_host_char cs && ends_alphanumeric (c ∷ cs))

-- The loop of `parseCsvLine`: the field read so far, and whether a quotation is open.
unfoldable pub fields_from : ℕ → Text → Bool → Text → List Text
unfolding trim
fields_from delimiter current quoted [] = trim current ∷ []
fields_from delimiter current quoted (c ∷ cs) =
    let toggled = fields_from delimiter current (not quoted) cs in
    let pushed = trim current ∷ fields_from delimiter [] quoted cs in
    let longer = fields_from delimiter (current ++ c ∷ []) quoted cs in
    if c == b'"' then toggled else if c == delimiter && not quoted then pushed else longer

abbrev pub parse_csv_line : ℕ → Text → List Text
parse_csv_line delimiter = fields_from delimiter [] false

pub record Row : Type 0 where
  pub line_number : ℕ
  pub fields : List Text
  pub raw : Text

-- `split(/\r?\n/)`: one carriage return in front of a line feed goes with it
drop_return : Text → Text
drop_return [] = []
drop_return (c ∷ []) = if c == b'\r' then [] else c ∷ []
drop_return (c ∷ d ∷ cs) = c ∷ drop_return (d ∷ cs)

drop_returns : List Text → List Text
unfolding drop_return
drop_returns [] = []
drop_returns (l ∷ []) = l ∷ []
drop_returns (l ∷ m ∷ ls) = drop_return l ∷ drop_returns (m ∷ ls)

abbrev pub is_skipped : Text → Bool
is_skipped [] = true
is_skipped (c ∷ cs) = c == b'#'

unfoldable pub rows_from : ℕ → ℕ → List Text → List Row
unfolding fields_from trim
rows_from delimiter n [] = []
rows_from delimiter n (l ∷ ls) =
    let line = trim l in
    let rest = rows_from delimiter (suc n) ls in
    if is_skipped line
    then rest
    else record { line_number = n; fields = parse_csv_line delimiter line; raw = line } ∷ rest

unfoldable pub parse_csv : ℕ → Text → List Row
unfolding rows_from drop_returns split
parse_csv delimiter content = rows_from delimiter 1 (drop_returns (split b'\n' content))
