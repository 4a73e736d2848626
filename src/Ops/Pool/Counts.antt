-- ===== src/Ops/Pool/Counts.antt =====
-- Sums over the workers of a pool.
use linbo_docker.Base.{
  ℕ, zero, suc, ◌+◌, ◌≤◌, ◌<◌, ◌≡◌, refl, true, some, List, [], ◌∷◌, ◌++◌, arith, ◌==◌,
  if◌then◌else◌, all, length, get_elem?, set,
}
use linbo_docker.Ops.Pool.{Worker, awaits, quit, has_quit}

abbrev pub total : (Worker → ℕ) → List Worker → ℕ
total f [] = 0
total f (w ∷ ws) = f w + total f ws

-- the worker awaits the call for this place
abbrev pub on_place : ℕ → Worker → ℕ
on_place j (awaits i) = if i == j then 1 else 0
on_place j quit = 0

-- the worker awaits a call
abbrev pub is_calling : Worker → ℕ
is_calling (awaits i) = 1
is_calling quit = 0

the_worker : {u v : Worker} → some u ≡ some v → u ≡ v
the_worker h = cc

pub total-append :
    (f : Worker → ℕ) (ws : List Worker) (v : Worker) → total f (ws ++ v ∷ []) ≡ total f ws + f v
total-append f [] v = omega arith
total-append f (w ∷ ws) v = omega (arith, total-append f ws v)

pub total-set :
    (f : Worker → ℕ) (ws : List Worker) (w : ℕ) (u v : Worker)
    → get_elem? ws w ≡ some u
    → total f (set ws w v) + f u ≡ total f ws + f v
total-set f [] w u v e = absurd (ground (arith, e))
total-set f (x ∷ ws) zero u v e = rw (the_worker e) (omega arith)
total-set f (x ∷ ws) (suc w) u v e = omega (arith, total-set f ws w u v e)

pub is_calling-length : (ws : List Worker) → total is_calling ws ≤ length ws
is_calling-length [] = omega arith
is_calling-length (awaits i ∷ ws) = omega (arith, is_calling-length ws)
is_calling-length (quit ∷ ws) = omega (arith, is_calling-length ws)

pub on_place-is_calling : (j : ℕ) (ws : List Worker) → total (on_place j) ws ≤ total is_calling ws
on_place-is_calling j [] = omega arith
on_place-is_calling j (awaits i ∷ ws) = ground (arith, on_place-is_calling j ws)
on_place-is_calling j (quit ∷ ws) = omega (arith, on_place-is_calling j ws)

pub quit-calling : (ws : List Worker) → all has_quit ws ≡ true → total is_calling ws ≡ 0
quit-calling [] h = refl
quit-calling (awaits i ∷ ws) h = absurd (ground (arith, h))
quit-calling (quit ∷ ws) h = omega (arith, quit-calling ws h)

pub calling-quit : (ws : List Worker) → total is_calling ws ≡ 0 → all has_quit ws ≡ true
calling-quit [] h = refl
calling-quit (awaits i ∷ ws) h = absurd (omega arith)
calling-quit (quit ∷ ws) h = calling-quit ws (omega arith)

pub own_place : (i : ℕ) → on_place i (awaits i) ≡ 1
own_place i = ground arith

-- A worker at a place of the list counts.
pub total-get :
    (f : Worker → ℕ) (ws : List Worker) (w : ℕ) (u : Worker)
    → get_elem? ws w ≡ some u
    → f u ≤ total f ws
total-get f [] w u e = absurd (ground (arith, e))
total-get f (x ∷ ws) zero u e = rw (the_worker e) (omega arith)
total-get f (x ∷ ws) (suc w) u e = omega (arith, total-get f ws w u e)

-- Where not all have quit, one of them awaits a call.
pub one_calling :
    (ws : List Worker)
    → 0 < total is_calling ws
    → (w : ℕ) × (i : ℕ) × (get_elem? ws w ≡ some (awaits i))
one_calling [] h = absurd (omega arith)
one_calling (awaits i ∷ ws) h = (zero, i, refl)
one_calling (quit ∷ ws) h = let (w, i, e) = one_calling ws (omega arith) in (suc w, i, e)
