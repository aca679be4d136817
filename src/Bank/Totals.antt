-- ===== src/Bank/Totals.antt =====
-- Counting threads by the place where they stand, in models of threads that run by turns.
use structure_of_os.Prelude.{
  ℕ, zero, suc, ◌+◌, ◌*◌, ◌≤◌, ◌≡◌, refl, ap, Bool, true, false, List, [], ◌∷◌, ◌++◌, replicate,
  length, length-append, leb, arith, Bool-cases, inl, inr,
}

abbrev pub bit : Bool → ℕ
bit true = 1
bit false = 0

pub bit_le_one : (b : Bool) → bit b ≤ 1
bit_le_one true = omega arith
bit_le_one false = omega arith

module _ {X : Type 0} where
  -- How many threads stand at one of some places.
  abbrev pub total : (X → ℕ) → List X → ℕ
  total w [] = 0
  total w (x ∷ l) = w x + total w l

  -- One thread's move changes a total by its own two places.
  pub total-move :
      (w : X → ℕ) (a b : List X) (x y : X) → total w (a ++ y ∷ b) + w x ≡ total w (a ++ x ∷ b) + w y
  total-move w [] b x y = omega arith
  total-move w (z ∷ a) b x y = omega (arith, total-move w a b x y)

  pub le_total : (w : X → ℕ) (a b : List X) (x : X) → w x ≤ total w (a ++ x ∷ b)
  le_total w [] b x = omega arith
  le_total w (z ∷ a) b x = omega (arith, le_total w a b x)

  pub total-append : (w : X → ℕ) (a b : List X) → total w (a ++ b) ≡ total w a + total w b
  total-append w [] b = omega arith
  total-append w (z ∷ a) b = omega (arith, total-append w a b)

  pub total-replicate : (w : X → ℕ) (n : ℕ) (x : X) → w x ≡ 0 → total w (replicate n x) ≡ 0
  total-replicate w zero x h = refl
  total-replicate w (suc n) x h = omega (arith, h, total-replicate w n x h)

  -- A bound at each place is a bound of the totals.
  pub total-le :
      (u v w : X → ℕ) (l : List X)
      → ((x : X) → u x ≤ 2 * v x + w x)
      → total u l ≤ 2 * total v l + total w l
  total-le u v w [] h = omega arith
  total-le u v w (x ∷ l) h = omega (arith, h x, total-le u v w l h)

  pub total_mono : (u v : X → ℕ) (l : List X) → ((x : X) → u x ≤ v x) → total u l ≤ total v l
  total_mono u v [] h = omega arith
  total_mono u v (x ∷ l) h = omega (arith, h x, total_mono u v l h)

  pub find_thread :
      (w : X → ℕ) (l : List X)
      → 1 ≤ total w l
      → (a : List X) × (b : List X) × (x : X) × (l ≡ a ++ x ∷ b) × (1 ≤ w x)
  find_thread w [] h = elim h [ ]
  find_thread w (y ∷ l) h = elim (Bool-cases (leb 1 (w y))) [
    | inl here ↦ ([], l, y, refl, ground arith)
    | inr further ↦
        let (a, b, x, e, k) = find_thread w l (ground arith) in (y ∷ a, b, x, ap (λ t. y ∷ t) e, k)
  ]

  pub length-move : (a b : List X) (x y : X) → length (a ++ y ∷ b) ≡ length (a ++ x ∷ b)
  length-move a b x y = rw (length-append a (y ∷ b), length-append a (x ∷ b)) refl

pub length-replicate : {X : Type 0} (n : ℕ) (x : X) → length (replicate n x) ≡ n
length-replicate zero x = refl
length-replicate (suc n) x = ap suc (length-replicate n x)
