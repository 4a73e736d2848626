-- ===== src/Import/Lines.antt =====
-- containers/api/src/services/deviceImport.service.js: `parseCsvLine` reads back a joined line.
use linbo_docker.Base.{
  ℕ, ◌≡◌, refl, sym, ap, ◌∙◌, Bool, false, ◌||◌, List, [], ◌∷◌, ◌++◌, arith, ◌==◌, All, any,
}
use mathlib.Core.Path.{ap₂}
use linbo_docker.Text.{Text, trim}
use linbo_docker.Text.Split.{join, join-cons_cons, join-one}
use linbo_docker.Import.{fields_from, parse_csv_line}

-- a code unit that `parseCsvLine` does not take as it is
abbrev pub is_special : ℕ → ℕ → Bool
is_special delimiter c = c == b'"' || c == delimiter

-- neither the delimiter nor a quotation mark, and no white space at the ends
abbrev pub IsPlainField : ℕ → Text → Type 0
IsPlainField delimiter s = (any (is_special delimiter) s ≡ false) × (trim s ≡ s)

append-snoc : (s t : Text) (c : ℕ) → ((s ++ c ∷ []) ++ t) ≡ s ++ (c ∷ t)
append-snoc [] t c = refl
append-snoc (x ∷ s) t c = ap (◌∷◌ x) (append-snoc s t c)

append-nil : (s : Text) → (s ++ []) ≡ s
append-nil [] = refl
append-nil (x ∷ s) = ap (◌∷◌ x) (append-nil s)

fields_from-step :
    (d : ℕ) (current : Text) (c : ℕ) (cs : Text)
    → is_special d c ≡ false
    → fields_from d current false (c ∷ cs) ≡ fields_from d (current ++ c ∷ []) false cs
unfolding fields_from
fields_from-step d current c cs h = ground arith

fields_from-delimiter :
    (d : ℕ) (current cs : Text)
    → (d == b'"') ≡ false
    → fields_from d current false (d ∷ cs) ≡ trim current ∷ fields_from d [] false cs
unfolding fields_from
fields_from-delimiter d current cs h = ground arith

fields_from-end : (d : ℕ) (current : Text) → fields_from d current false [] ≡ trim current ∷ []
unfolding fields_from
fields_from-end d current = refl

module _ (d : ℕ) where
  over_field :
      (current s rest : Text)
      → any (is_special d) s ≡ false
      → fields_from d current false (s ++ rest) ≡ fields_from d (current ++ s) false rest
  over_field current [] rest h =
      ap (λ (t : Text). fields_from d t false rest) (sym (append-nil current))
  over_field current (c ∷ s) rest h =
      fields_from-step d current c (s ++ rest) (ground arith)
      ∙ over_field (current ++ c ∷ []) s rest (ground arith)
      ∙ ap (λ (t : Text). fields_from d t false rest) (append-snoc current s c)

  -- A line that is joined with a delimiter other than a quotation mark, from fields without the
  -- delimiter, quotation marks and outer white space, is parsed into these fields.
  pub parse_csv_line-join :
      (s : Text) (ss : List Text)
      → (d == b'"') ≡ false
      → All (IsPlainField d) (s ∷ ss)
      → parse_csv_line d (join d (s ∷ ss)) ≡ s ∷ ss
  parse_csv_line-join s [] q ((p, t), h) =
      ap (parse_csv_line d) (join-one d s ∙ sym (append-nil s))
      ∙ over_field [] s [] p
      ∙ fields_from-end d s
      ∙ ap (λ (u : Text). u ∷ []) t
  parse_csv_line-join s (u ∷ us) q ((p, t), h) =
      ap (parse_csv_line d) (join-cons_cons d s u us)
      ∙ over_field [] s (d ∷ join d (u ∷ us)) p
      ∙ fields_from-delimiter d s (join d (u ∷ us)) q
      ∙ ap₂ ◌∷◌ t (parse_csv_line-join u us q h)
