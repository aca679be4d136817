-- ===== src/Bank/Dict.antt =====
-- `std::map<int, account*>`: entries in the order of their keys, a pointer for each.
use structure_of_os.Prelude.{
  ℕ, ℤ, ◌≡◌, refl, Option, none, some, List, [], ◌∷◌, ◌⊎◌, inl, inr, ⊤, Bool-cases, Option-cases,
  arith, eqb_ℤ_iff, eqb_ℤ, ltb_ℤ, if◌then◌else◌,
}

abbrev pub Dict : Type 0
Dict = List (ℤ × ℕ)

abbrev pub find : ℤ → Dict → Option ℕ
find k [] = none
find k ((j, p) ∷ m) = if eqb_ℤ k j then some p else find k m

-- A new entry, before the first larger key.
abbrev pub place : ℤ → ℕ → Dict → Dict
place k p [] = (k, p) ∷ []
place k p ((j, q) ∷ m) = if ltb_ℤ k j then (k, p) ∷ (j, q) ∷ m else (j, q) ∷ place k p m

-- `insert` leaves the entry of a key that is there.
abbrev pub insert : ℤ → ℕ → Dict → Dict
insert k p m = elim (find k m) [ none ↦ place k p m | some _ ↦ m ]

pub insert-held : (k : ℤ) (p : ℕ) (m : Dict) {q : ℕ} → find k m ≡ some q → insert k p m ≡ m
insert-held k p m h = rw (insert, h)

abbrev pub erase : ℤ → Dict → Dict
erase k [] = []
erase k ((j, p) ∷ m) = if eqb_ℤ k j then erase k m else (j, p) ∷ erase k m

pub find-place :
    (j k : ℤ) (p : ℕ) (m : Dict)
    → find k m ≡ none
    → find j (place k p m) ≡ (if eqb_ℤ j k then some p else find j m)
find-place j k p [] h = refl
find-place j k p ((i, q) ∷ m) h = ground (arith, find-place j k p m)

pub find-erase : (j k : ℤ) (m : Dict) → find j (erase k m) ≡ (if eqb_ℤ j k then none else find j m)
find-erase j k [] = ground arith
find-erase j k ((i, q) ∷ m) = ground (arith, find-erase j k m)

-- A number stands for one entry at most.
abbrev pub Distinct : Dict → Type 0
Distinct [] = ⊤
Distinct ((k, p) ∷ m) = (find k m ≡ none) × Distinct m

pub place-Distinct :
    (k : ℤ) (p : ℕ) (m : Dict) → find k m ≡ none → Distinct m → Distinct (place k p m)
place-Distinct k p [] h d = (refl, tt)
place-Distinct k p ((j, q) ∷ m) h (new, d) = elim (Bool-cases (ltb_ℤ k j)) [
  | inl before ↦ rw before (h, (new, d))
  | inr behind ↦
      rw behind (ground (arith, find-place j k p m), place-Distinct k p m (ground arith) d)
]

pub erase-Distinct : (k : ℤ) (m : Dict) → Distinct m → Distinct (erase k m)
erase-Distinct k [] d = tt
erase-Distinct k ((j, q) ∷ m) (new, d) = elim (Bool-cases (eqb_ℤ k j)) [
  | inl same ↦ rw same (erase-Distinct k m d)
  | inr other ↦ rw other (ground (arith, find-erase j k m), erase-Distinct k m d)
]

pub insert-Distinct : (k : ℤ) (p : ℕ) (m : Dict) → Distinct m → Distinct (insert k p m)
insert-Distinct k p m d = elim (Option-cases (find k m)) [
  | inl new ↦ rw (insert, new) (place-Distinct k p m new d)
  | inr (q, old) ↦ rw (insert-held k p m old) d
]

-- What `insert` leads to: what was there, or else the new pointer.
pub find-insert :
    (j k : ℤ) (p q : ℕ) (m : Dict)
    → find j (insert k p m) ≡ some q
    → (find j m ≡ some q) ⊎ ((j ≡ k) × (q ≡ p))
find-insert j k p q m e = elim (Option-cases (find k m)) [
  | inl new ↦ elim (Bool-cases (eqb_ℤ j k)) [
    | inl same ↦
        let found : some p ≡ some q = rw (insert, new, find-place j k p m new, same) at e in
        inr ((eqb_ℤ_iff j k).0 same, cc found)
    | inr other ↦ inl (rw (insert, new, find-place j k p m new, other) at e)
  ]
  | inr (o, old) ↦ inl (rw (insert-held k p m old) at e)
]

-- Every entry of the list is the one that the other list leads to.
abbrev pub AllFound : Dict → Dict → Type 0
AllFound m [] = ⊤
AllFound m ((k, p) ∷ l) = (find k m ≡ some p) × AllFound m l

AllFound-cons :
    (k : ℤ) (p : ℕ) (m l : Dict) → find k l ≡ none → AllFound m l → AllFound ((k, p) ∷ m) l
AllFound-cons k p m [] h f = tt
AllFound-cons k p m ((j, q) ∷ l) h (found, f) =
    (ground (arith, eqb_ℤ_iff j k, eqb_ℤ_iff k j), AllFound-cons k p m l (ground arith) f)

pub Distinct-AllFound : (m : Dict) → Distinct m → AllFound m m
Distinct-AllFound [] d = tt
Distinct-AllFound ((k, p) ∷ m) (new, d) =
    (rw ((eqb_ℤ_iff k k).1 refl) refl, AllFound-cons k p m m new (Distinct-AllFound m d))
