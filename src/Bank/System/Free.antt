-- ===== src/Bank/System/Free.antt =====
-- `bank::free_accounts` and `bank::free_atms` (bank.cpp): what they free.
use structure_of_os.Prelude.{
  ℕ, zero, suc, ◌<◌, ℤ, ◌≡◌, ◌∙◌, ◌≢◌, ap, ◌↔◌, ◌⊎◌, refl, true, false, none, some, List, [], ◌∷◌,
  inl, inr, Bool-cases, eqb_ℤ, eqb_ℤ_iff, arith,
}
use mathlib.Core.Option.{some-injective}
use structure_of_os.Bank.Dict.{Dict, find, Distinct}
use structure_of_os.Bank.State.{Vault}
use structure_of_os.Bank.Invariant.{IsValid, pointer_injective}
use structure_of_os.Bank.Kept.{Kept, AllClosed}
use structure_of_os.Bank.System.{
  Atm, numbers, free_atms, holds, delete_all, pointers, free_accounts,
}

-- The map leads to the account.
abbrev pub LeadsTo : Dict → ℕ → Type 0
LeadsTo m p = (id : ℤ) × (find id m ≡ some p)

-- No two numbers lead to one account.
abbrev IsInjective : Dict → Type 0
IsInjective m = (i j : ℤ) (p : ℕ) → find i m ≡ some p → find j m ≡ some p → i ≡ j

-- Each account of the map, and no other, has been freed besides those of `freed`.
record Frees (m : Dict) (freed freed' : List ℕ) : Type 0 where
  deletes : delete_all freed (pointers m) ≡ some freed'
  only : (p : ℕ) → holds p freed' ≡ true → (holds p freed ≡ true) ⊎ LeadsTo m p
  all : (p : ℕ) → LeadsTo m p → holds p freed' ≡ true
  more : (p : ℕ) → holds p freed ≡ true → holds p freed' ≡ true

find-head : (k : ℤ) (p : ℕ) (m : Dict) → find k ((k, p) ∷ m) ≡ some p
find-head k p m = rw ((eqb_ℤ_iff k k).1 refl) refl

find-tail :
    (k i : ℤ) (p q : ℕ) (m : Dict)
    → find k m ≡ none
    → find i m ≡ some q
    → find i ((k, p) ∷ m) ≡ some q
find-tail k i p q m new e = ground (arith, eqb_ℤ_iff i k)

holds-head : (p : ℕ) (l : List ℕ) → holds p (p ∷ l) ≡ true
holds-head p l = ground arith

holds-tail : (p q : ℕ) (l : List ℕ) → holds p l ≡ true → holds p (q ∷ l) ≡ true
holds-tail p q l h = ground arith

holds-cases : (p q : ℕ) (l : List ℕ) → holds p (q ∷ l) ≡ true → (p ≡ q) ⊎ (holds p l ≡ true)
holds-cases p q l h = ground arith

IsInjective-tail :
    (k : ℤ) (p : ℕ) (m : Dict) → find k m ≡ none → IsInjective ((k, p) ∷ m) → IsInjective m
IsInjective-tail k p m new inj i j q e f =
    inj i j q (find-tail k i p q m new e) (find-tail k j p q m new f)

-- The rest of the map does not lead to the account of its first entry.
head-apart :
    (k : ℤ) (p : ℕ) (m : Dict)
    → find k m ≡ none
    → IsInjective ((k, p) ∷ m)
    → (q : ℕ) → LeadsTo m q
    → q ≢ p
head-apart k p m new inj q (i, e) same =
    let i_is_k : i ≡ k = inj i k q (find-tail k i p q m new e) (rw same (find-head k p m)) in
    cc (rw i_is_k at e)

delete_all-Frees :
    (m : Dict) (freed : List ℕ)
    → Distinct m
    → IsInjective m
    → ((p : ℕ) → LeadsTo m p → holds p freed ≡ false)
    → (freed' : List ℕ) × Frees m freed freed'
delete_all-Frees [] freed d inj apart =
    (freed, record { deletes = refl; only = λ p h. inl h; all = λ p (i, e). cc; more = λ p h. h })
delete_all-Frees ((k, p) ∷ m) freed (new, d) inj apart =
    let rest_apart : (q : ℕ) → LeadsTo m q → holds q (p ∷ freed) ≡ false = λ q (i, e).
      ground (arith, apart q (i, find-tail k i p q m new e), head-apart k p m new inj q (i, e)) in
    let (freed', r) =
      delete_all-Frees m (p ∷ freed) d (IsInjective-tail k p m new inj) rest_apart in
    (
      freed',
      record {
        deletes = rw (apart p (k, find-head k p m)) r.deletes;
        only = λ q h. elim (r.only q h) [
          | inl older ↦ elim (holds-cases q p freed older) [
            | inl same ↦ inr (k, rw same (find-head k p m))
            | inr old ↦ inl old
          ]
          | inr (i, e) ↦ inr (i, find-tail k i p q m new e)
        ];
        all = λ q (i, e). elim (Bool-cases (eqb_ℤ i k)) [
          | inl same ↦
              let here : some p ≡ some q = rw same at e in
              r.more q (ground (arith, some-injective p q here))
          | inr other ↦ let there : find i m ≡ some q = rw other at e in r.all q (i, there)
        ];
        more = λ q h. r.more q (holds-tail q p freed h);
      },
    )

closed-IsInjective : (v : Vault) → AllClosed v → IsInjective v.map_of_deleted_accounts
closed-IsInjective v closed i j p e f =
    let (b, w, h) = closed i p e in let (c, x, g) = closed j p f in ground arith

-- No account is in both maps: those of the one are open, those of the other closed.
maps-apart :
    (v : Vault)
    → IsValid v
    → AllClosed v
    → (p : ℕ) → LeadsTo v.map_of_accounts p
    → LeadsTo v.map_of_deleted_accounts p
    → ⊥
maps-apart v valid closed p (i, e) (j, f) =
    let (b, w, h) = valid i p e in let (c, x, g) = closed j p f in ground arith

-- Over a bank that is valid and whose maps are kept, `free_accounts` deletes no account twice, and
-- deletes just those accounts to which one of the two maps leads.
pub free_accounts-frees :
    (v : Vault)
    → IsValid v
    → Kept v
    → (freed : List ℕ) × (free_accounts v ≡ some freed)
      × ((p : ℕ)
          → (holds p freed ≡ true)
            ↔ (LeadsTo v.map_of_accounts p ⊎ LeadsTo v.map_of_deleted_accounts p))
unfolding free_accounts
free_accounts-frees v valid (d, e, closed) =
    let (opened, first) =
      delete_all-Frees v.map_of_accounts [] d (λ i j p. pointer_injective v i j p valid)
        (λ p l. refl) in
    let apart : (p : ℕ) → LeadsTo v.map_of_deleted_accounts p → holds p opened ≡ false = λ p l.
      elim (Bool-cases (holds p opened)) [
        | inr free ↦ free
        | inl h ↦ elim (first.only p h) [
          | inl old ↦ cc
          | inr open_one ↦ absurd (maps-apart v valid closed p open_one l)
        ]
      ] in
    let (freed, second) =
      delete_all-Frees v.map_of_deleted_accounts opened e (closed-IsInjective v closed) apart in
    (
      freed,
      rw (free_accounts, first.deletes) second.deletes,
      λ p. (
        λ h. elim (second.only p h) [
          | inl old ↦ elim (first.only p old) [ inl e ↦ cc | inr l ↦ inl l ]
          | inr l ↦ inr l
        ],
        λ either. elim either [ inl l ↦ second.more p (first.all p l) | inr l ↦ second.all p l ],
      ),
    )

-- The numbers from one on, so many.
abbrev pub from : ℕ → ℕ → List ℕ
from low zero = []
from low (suc n) = low ∷ from (suc low) n

abbrev AllLess : ℕ → List ℕ → Type 0
AllLess low freed = (p : ℕ) → holds p freed ≡ true → p < low

delete_all-from :
    (low n : ℕ) (freed : List ℕ)
    → AllLess low freed
    → (freed' : List ℕ) × (delete_all freed (from low n) ≡ some freed')
delete_all-from low zero freed less = (freed, refl)
delete_all-from low (suc n) freed less =
    let fresh : holds low freed ≡ false = elim (Bool-cases (holds low freed)) [
      | inl h ↦ absurd (omega (arith, less low h))
      | inr free ↦ free
    ] in
    let (freed', e) = delete_all-from (suc low) n (low ∷ freed) (λ p h.
      elim (holds-cases p low freed h) [
        | inl same ↦ omega (arith, same)
        | inr old ↦ omega (arith, less p old)
      ]) in
    (freed', rw fresh e)

-- Numbers in a row are deleted without a number that comes twice.
pub free_atms-from :
    (atms : List Atm) (low n : ℕ)
    → numbers atms ≡ from low n
    → (freed : List ℕ) × (free_atms atms ≡ some freed)
unfolding free_atms
free_atms-from atms low n e =
    let (freed, d) = delete_all-from low n [] (λ p h. cc) in (freed, ap (delete_all []) e ∙ d)
