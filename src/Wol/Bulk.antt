-- ===== src/Wol/Bulk.antt =====
-- containers/api/src/services/wol.service.js: the summary of `sendWakeOnLanBulk`.
use linbo_docker.Base.{
  ℕ, suc, ◌+◌, ◌≡◌, refl, ap, Bool, not, Option, List, [], ◌∷◌, map, inl, inr, arith, length, keep,
  Bool-cases,
}
use linbo_docker.Text.{Text}
use linbo_docker.Wol.{WolError, is_fulfilled, wakings, send_wake_on_lan_bulk}

keep-partition {ℓ} :
    {A : Type ℓ} (p : A → Bool) (xs : List A)
    → length xs ≡ length (keep p xs) + length (keep (λ x. not (p x)) xs)
keep-partition p [] = omega arith
keep-partition p (x ∷ xs) = elim (Bool-cases (p x)) [
  | inl e ↦ rw e (omega (arith, keep-partition p xs))
  | inr e ↦ rw e (omega (arith, keep-partition p xs))
]

module _ (send : Text → List ℕ → ℕ → Option WolError) where
  wakings-addresses :
      (count : ℕ) (ms : List Text) → map (λ w. w.address) (wakings send count ms) ≡ ms
  wakings-addresses count [] = refl
  wakings-addresses count (m ∷ ms) = ap (◌∷◌ m) (wakings-addresses count ms)

  length-wakings : (count : ℕ) (ms : List Text) → length (wakings send count ms) ≡ length ms
  length-wakings count [] = refl
  length-wakings count (m ∷ ms) = ap suc (length-wakings count ms)

  -- Whatever the socket answers, the bulk sender reports one result for each address, in the order
  -- of the addresses, and counts each of them either as successful or as failed.
  send_wake_on_lan_bulk-counts :
      (count : ℕ) (ms : List Text)
      → (map (λ w. w.address) (send_wake_on_lan_bulk send count ms).results ≡ ms)
        × ((send_wake_on_lan_bulk send count ms).total
            ≡ (send_wake_on_lan_bulk send count ms).successful
              + (send_wake_on_lan_bulk send count ms).failed)
  unfolding send_wake_on_lan_bulk
  send_wake_on_lan_bulk-counts count ms = (
    wakings-addresses count ms,
    omega (
      arith,
      length-wakings count ms,
      keep-partition (is_fulfilled send) (wakings send count ms),
    ),
  )
