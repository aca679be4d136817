-- ===== src/Shell/Compare.antt =====
-- What `diff` finds (commands.cpp).
use structure_of_os.Prelude.{
  ℕ, suc, ◌≡◌, ◌≢◌, ◌≤◌, ◌↔◌, refl, ap, Bool, true, false, not, ◌&&◌, ◌==◌, ==_iff, some, [], ◌∷◌,
  ◌++◌, ⊤, Text, text_eq, length, is_space, arith, Bool-cases, inl, inr,
}
use structure_of_os.Shell.State.{Os, Shell, differs}
use structure_of_os.Shell.Monad.{done}
use structure_of_os.Shell.Commands.{success, failure, visible, starts_with, same_files, diff}

starts_with-append : (past : ℕ → ℕ) (x z : Text) → starts_with past x (x ++ z) ≡ true
starts_with-append past [] z = refl
starts_with-append past (a ∷ x) z = ground (arith, starts_with-append past x z)

-- Where the second text is not the shorter one, nothing is read past its end.
starts_with_split :
    (past : ℕ → ℕ) (x y : Text)
    → length x ≤ length y
    → starts_with past x y ≡ true
    → (z : Text) × (y ≡ x ++ z)
starts_with_split past [] y long h = (y, refl)
starts_with_split past (a ∷ x) [] long h = absurd (omega arith)
starts_with_split past (a ∷ x) (b ∷ y) long h =
    let rest : starts_with past x y ≡ true = ground arith in
    let same : a ≡ b = ground arith in
    let (z, e) = starts_with_split past x y (omega arith) rest in (z, rw (same, e) refl)

-- The shell after `diff` has printed what it found.
abbrev pub found : Bool → Shell → Shell
found b s = record s { out = s.out ++ differs b ∷ [] }

-- Of two files of one size that can be read, where the second one has no fewer characters beside
-- white space than the first one, `diff` says that they are the same just where the second one,
-- without its white space, begins with the first one without its own.
pub diff-blind :
    (os : Os) (a b x y : Text) (s : Shell)
    → os.files a ≡ some x
    → os.files b ≡ some y
    → length x ≡ length y
    → length (visible x) ≤ length (visible y)
    → (answer : Bool) × (diff os (a ∷ b ∷ []) s ≡ done success (found answer s))
      × ((answer ≡ false) ↔ ((z : Text) × (visible y ≡ visible x ++ z)))
unfolding diff
diff-blind os a b x y s at_a at_b size long = (
  not (same_files (os.past_end y) x y),
  rw (at_a, at_b, (==_iff (length x) (length y)).1 size) refl,
  (
    λ h. starts_with_split (os.past_end y) (visible x) (visible y) long (ground arith),
    λ (z, e). rw (e, starts_with-append (os.past_end y) (visible x) z) refl,
  ),
)

-- Texts without white space.
abbrev pub IsPlain : Text → Type 0
IsPlain [] = ⊤
IsPlain (c ∷ t) = (is_space c ≡ false) × IsPlain t

visible-IsPlain : (t : Text) → IsPlain t → visible t ≡ t
visible-IsPlain [] h = refl
visible-IsPlain (c ∷ t) (plain, h) = rw (plain, visible-IsPlain t h) refl

starts_with-text_eq :
    (past : ℕ → ℕ) (x y : Text) → length x ≡ length y → starts_with past x y ≡ text_eq x y
starts_with-text_eq past [] [] h = refl
starts_with-text_eq past [] (b ∷ y) h = absurd (omega arith)
starts_with-text_eq past (a ∷ x) [] h = absurd (omega arith)
starts_with-text_eq past (a ∷ x) (b ∷ y) h =
    ap (λ r. a == b && r) (starts_with-text_eq past x y (omega arith))

text_eq-length : (x y : Text) → length x ≢ length y → text_eq x y ≡ false
text_eq-length [] [] h = absurd (h refl)
text_eq-length [] (b ∷ y) h = refl
text_eq-length (a ∷ x) [] h = refl
text_eq-length (a ∷ x) (b ∷ y) h = ground (arith, text_eq-length x y (λ e. h (ap suc e)))

-- Of two files that can be read and have no white space `diff` prints 1 where they differ, and 0
-- where they are the same.
pub diff-exact :
    (os : Os) (a b x y : Text) (s : Shell)
    → os.files a ≡ some x
    → os.files b ≡ some y
    → IsPlain x
    → IsPlain y
    → (result : ℕ) × (diff os (a ∷ b ∷ []) s ≡ done result (found (not (text_eq x y)) s))
unfolding diff
diff-exact os a b x y s at_a at_b plain_x plain_y = elim (Bool-cases (length x == length y)) [
  | inl same ↦
      let size : length x ≡ length y = (==_iff (length x) (length y)).0 same in
      (
        success,
        rw
            (
              at_a,
              at_b,
              same,
              visible-IsPlain x plain_x,
              visible-IsPlain y plain_y,
              starts_with-text_eq (os.past_end y) x y size,
            )
            refl,
      )
  | inr other ↦
      let size : length x ≢ length y = λ e. cc (other, (==_iff (length x) (length y)).1 e) in
      (failure, rw (at_a, at_b, other, text_eq-length x y size) refl)
]
