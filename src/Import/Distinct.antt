-- ===== src/Import/Distinct.antt =====
-- containers/api/src/services/deviceImport.service.js: the sets of `validateCsv` keep apart the
-- hosts that are imported.
use mathlib.Core.Bool.{false≢true}
use mathlib.Core.Path.{subst}
use linbo_docker.Base.{
  ℕ, ◌≡◌, ◌≢◌, refl, sym, ap, ◌∙◌, true, false, none, some, List, [], ◌∷◌, inl, inr, arith, All,
  Bool-cases, Option-cases,
}
use linbo_docker.Text.{Text, includes, text_eq_refl}
use linbo_docker.Import.{Row, parse_csv}
use linbo_docker.Import.Rows.{
  Device, RowResult, see, imported_from, hosts_to_process, refuse_duplicates, check_rows,
  validate_csv_row, validate_rows, validate_csv,
}

abbrev pub DiffersFrom : Device → Device → Type 0
DiffersFrom d e = (d.mac_address ≢ e.mac_address) × (d.hostname ≢ e.hostname)

-- no two of them share a MAC address or a name
abbrev pub IsDistinct : List Device → Type 0
IsDistinct [] = Unit
IsDistinct (d ∷ ds) = All (DiffersFrom d) ds × IsDistinct ds

abbrev Unseen : List Text → List Text → Device → Type 0
Unseen macs names d = (includes macs d.mac_address ≡ false) × (includes names d.hostname ≡ false)

includes-see : (seen : List Text) (s : Text) → includes (see seen s) s ≡ true
unfolding includes
includes-see seen s = ground (arith, text_eq_refl s)

unseen_before :
    (seen : List Text) (s t : Text) → includes (see seen s) t ≡ false → includes seen t ≡ false
unfolding includes
unseen_before seen s t h = ground arith

unseen-≢ : (seen : List Text) (s t : Text) → includes (see seen s) t ≡ false → s ≢ t
unseen-≢ seen s t h e =
    false≢true (sym h ∙ (ap (includes (see seen s)) (sym e) ∙ includes-see seen s))

module _ (macs names : List Text) (d : Device) where
  abbrev after_macs : List Text
  after_macs = see macs d.mac_address

  abbrev after_names : List Text
  after_names = see names d.hostname

  All-Unseen :
      (ds : List Device) → All (Unseen after_macs after_names) ds → All (Unseen macs names) ds
  All-Unseen [] h = tt
  All-Unseen (e ∷ ds) ((m, n), h) = (
    (unseen_before macs d.mac_address e.mac_address m, unseen_before names d.hostname e.hostname n),
    All-Unseen ds h,
  )

  All-DiffersFrom :
      (ds : List Device) → All (Unseen after_macs after_names) ds → All (DiffersFrom d) ds
  All-DiffersFrom [] h = tt
  All-DiffersFrom (e ∷ ds) ((m, n), h) = (
    (unseen-≢ macs d.mac_address e.mac_address m, unseen-≢ names d.hostname e.hostname n),
    All-DiffersFrom ds h,
  )

abbrev Holds : List Text → List Text → List Device → Type 0
Holds macs names ds = All (Unseen macs names) ds × IsDistinct ds

Holds-cons :
    (macs names : List Text) (d : Device) (ds : List Device)
    → Unseen macs names d
    → Holds (see macs d.mac_address) (see names d.hostname) ds
    → Holds macs names (d ∷ ds)
Holds-cons macs names d ds u (h, k) =
    ((u, All-Unseen macs names d ds h), (All-DiffersFrom macs names d ds h, k))

Holds-see :
    (macs names : List Text) (d : Device) (ds : List Device)
    → Holds (see macs d.mac_address) (see names d.hostname) ds
    → Holds macs names ds
Holds-see macs names d ds (h, k) = (All-Unseen macs names d ds h, k)

-- One row: it is imported only if its MAC address and its name are new.
Holds-imported_from :
    (n : ℕ) (macs names : List Text) (d : Device) (r : RowResult) (ds : List Device)
    → r.data_of ≡ some d
    → Holds (see macs d.mac_address) (see names d.hostname) ds
    → Holds macs names (imported_from (refuse_duplicates n macs names d r) ds)
unfolding refuse_duplicates
Holds-imported_from n macs names d r ds e h = elim (Bool-cases (includes macs d.mac_address)) [
  | inl m ↦ elim (Bool-cases (includes names d.hostname)) [
    | inl k ↦ rw (m, k, e) (Holds-see macs names d ds h)
    | inr k ↦ rw (m, k, e) (Holds-see macs names d ds h)
  ]
  | inr m ↦ elim (Bool-cases (includes names d.hostname)) [
    | inl k ↦ rw (m, k, e) (Holds-see macs names d ds h)
    | inr k ↦ elim (Bool-cases r.valid) [
      | inl v ↦ rw (m, k, e, v) (Holds-cons macs names d ds (m, k) h)
      | inr v ↦ rw (m, k, e, v) (Holds-see macs names d ds h)
    ]
  ]
]

module _ (macs names : List Text) (row : Row) (rows : List Row) where
  -- A row without data leaves the sets and the hosts as they are.
  unread :
      (validate_csv_row row).data_of ≡ none
      → hosts_to_process (check_rows macs names (row ∷ rows))
        ≡ hosts_to_process (check_rows macs names rows)
  unfolding check_rows hosts_to_process
  unread e = rw (e, hosts_to_process) (rw (e, imported_from) refl)

  read :
      {d : Device}
      → (validate_csv_row row).data_of ≡ some d
      → hosts_to_process (check_rows macs names (row ∷ rows))
        ≡ imported_from
            (refuse_duplicates row.line_number macs names d (validate_csv_row row))
            (hosts_to_process (check_rows (see macs d.mac_address) (see names d.hostname) rows))
  unfolding check_rows hosts_to_process
  read e = rw (e, hosts_to_process) refl

Holds-nil :
    (macs names : List Text) → Holds macs names (hosts_to_process (check_rows macs names []))
unfolding check_rows hosts_to_process
Holds-nil macs names = (tt, tt)

check_rows-Holds :
    (macs names : List Text) (rows : List Row)
    → Holds macs names (hosts_to_process (check_rows macs names rows))
check_rows-Holds macs names [] = Holds-nil macs names
check_rows-Holds macs names (row ∷ rows) = elim (Option-cases (validate_csv_row row).data_of) [
  | inl e ↦
      subst (Holds macs names) (sym (unread macs names row rows e))
        (check_rows-Holds macs names rows)
  | inr (d, e) ↦
      let ms = see macs d.mac_address in
      let ns = see names d.hostname in
      subst (Holds macs names) (sym (read macs names row rows e)) (
        Holds-imported_from row.line_number macs names d (validate_csv_row row)
          (hosts_to_process (check_rows ms ns rows)) e (check_rows-Holds ms ns rows))
]

validate_rows-IsDistinct :
    (rows : List Row) → IsDistinct (hosts_to_process (validate_rows rows).rows)
unfolding validate_rows hosts_to_process
validate_rows-IsDistinct [] = tt
validate_rows-IsDistinct (row ∷ rows) = (check_rows-Holds [] [] (row ∷ rows)).1

-- Whatever the CSV file holds: no two of the hosts that an import processes share a MAC address
-- (in its normalized form) or a name (in lower case).
pub validate_csv-IsDistinct :
    (delimiter : ℕ) (content : Text)
    → IsDistinct (hosts_to_process (validate_csv delimiter content).rows)
unfolding validate_csv
validate_csv-IsDistinct delimiter content = validate_rows-IsDistinct (parse_csv delimiter content)
