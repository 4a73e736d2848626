-- ===== src/Worker/Batches.antt =====
-- containers/api/src/workers/operation.worker.js: the batches are the sessions in their order, and
-- the results of all batches are counted.
use linbo_docker.Base.{
  ℕ, zero, suc, ◌+◌, ◌≤◌, ◌<◌, ◌≡◌, refl, ap, ◌∙◌, Bool, true, false, not, List, [], ◌∷◌, ◌++◌,
  arith, length, take, drop, keep, take-append-drop, length-drop,
}
use linbo_docker.Worker.{batches, count_results}

abbrev pub concat {ℓ} : {A : Type ℓ} → List (List A) → List A
concat [] = []
concat (xs ∷ xss) = xs ++ concat xss

module _ {ℓ} {A : Type ℓ} where
  -- With a positive size and fuel for each item the batches hold all items in their order.
  pub concat-batches :
      (fuel n : ℕ) (xs : List A) → 0 < n → length xs ≤ fuel → concat (batches fuel n xs) ≡ xs
  unfolding batches
  concat-batches zero n [] h k = refl
  concat-batches zero n (x ∷ xs) h k = absurd (omega arith)
  concat-batches (suc fuel) n [] h k = refl
  concat-batches (suc fuel) n (x ∷ xs) h k =
      ap (λ ys. take n (x ∷ xs) ++ ys)
        (concat-batches fuel n (drop n (x ∷ xs)) h (omega (arith, length-drop n (x ∷ xs))))
      ∙ take-append-drop n (x ∷ xs)

abbrev pub yes_count : List Bool → ℕ
yes_count rs = length (keep (λ b. b) rs)

abbrev pub no_count : List Bool → ℕ
no_count rs = length (keep not rs)

pub count_results_lem :
    (rs : List Bool) (c : ℕ × ℕ) → count_results rs c ≡ (c.0 + yes_count rs, c.1 + no_count rs)
unfolding count_results
count_results_lem [] (c, f) = ground arith
count_results_lem (true ∷ rs) (c, f) = count_results_lem rs (c + 1, f) ∙ ground arith
count_results_lem (false ∷ rs) (c, f) = count_results_lem rs (c, f + 1) ∙ ground arith

pub yes_count-append : (rs ss : List Bool) → yes_count (rs ++ ss) ≡ yes_count rs + yes_count ss
yes_count-append [] ss = omega arith
yes_count-append (true ∷ rs) ss = omega (arith, yes_count-append rs ss)
yes_count-append (false ∷ rs) ss = yes_count-append rs ss

pub no_count-append : (rs ss : List Bool) → no_count (rs ++ ss) ≡ no_count rs + no_count ss
no_count-append [] ss = omega arith
no_count-append (true ∷ rs) ss = no_count-append rs ss
no_count-append (false ∷ rs) ss = omega (arith, no_count-append rs ss)

pub yes_count-no_count : (rs : List Bool) → yes_count rs + no_count rs ≡ length rs
yes_count-no_count [] = omega arith
yes_count-no_count (true ∷ rs) = omega (arith, yes_count-no_count rs)
yes_count-no_count (false ∷ rs) = omega (arith, yes_count-no_count rs)
