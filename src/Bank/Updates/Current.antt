-- ===== src/Bank/Updates/Current.antt =====
-- What a thread has read of a balance is still what the balance is when it writes.
use structure_of_os.Prelude.{
  ℕ, zero, suc, ◌+◌, ◌≤◌, ℤ, ◌≡◌, ◌⊎◌, ◌∙◌, sym, refl, ap, ◌==◌, ==_iff, Bool, true, false, List,
  [], ◌∷◌, ◌++◌, ⊤, replicate, arith, Bool-cases, inl, inr,
}
use structure_of_os.Bank.Totals.{
  bit, bit_le_one, total, total-move, total-append, total-replicate, le_total,
}
use structure_of_os.Bank.Threads.{put_lock}
use structure_of_os.Bank.Threads.Exclusion.{is, taken, released}
use structure_of_os.Bank.Updates.{
  Place, idle, one, one_read, one_done, half, both, source_read, source_written, target_read,
  both_done, target_only, State, start, put_balance, at, Step, lock_one, read_one, refuse_one,
  write_one, unlock_one, lock_source, lock_target, refuse_both, read_source, too_low, write_source,
  read_target, write_target, unlock_source, unlock_target, Reaches, begins, goes_on,
}

-- How often a thread has locked the account `q`.
abbrev has : ℕ → Place → ℕ
has q (one p f) = is q p
has q (one_read p v f) = is q p
has q (one_done p) = is q p
has q (half s t f g) = is q s
has q (both s t f g) = is q s + is q t
has q (source_read s t v f g) = is q s + is q t
has q (source_written s t g) = is q s + is q t
has q (target_read s t v g) = is q s + is q t
has q (both_done s t) = is q s + is q t
has q (target_only t) = is q t
has q idle = 0

-- What the thread has read is the balance.
abbrev Current : (ℕ → ℤ) → Place → Type 0
Current h (one_read p v f) = h p ≡ v
Current h (source_read s t v f g) = h s ≡ v
Current h (target_read s t v g) = h t ≡ v
Current h _ = ⊤

abbrev AllCurrent : (ℕ → ℤ) → List Place → Type 0
AllCurrent h [] = ⊤
AllCurrent h (x ∷ l) = Current h x × AllCurrent h l

is_self : (p : ℕ) → is p p ≡ 1
is_self p = rw ((==_iff p p).1 refl) refl

-- Balances that a thread does not hold may change behind it.
Current-elsewhere :
    (h h' : ℕ → ℤ) (x : Place) → Current h x → ((q : ℕ) → 1 ≤ has q x → h' q ≡ h q) → Current h' x
Current-elsewhere h h' idle e same = tt
Current-elsewhere h h' (one p f) e same = tt
Current-elsewhere h h' (one_read p v f) e same = same p (omega (arith, is_self p)) ∙ e
Current-elsewhere h h' (one_done p) e same = tt
Current-elsewhere h h' (half s t f g) e same = tt
Current-elsewhere h h' (both s t f g) e same = tt
Current-elsewhere h h' (source_read s t v f g) e same = same s (omega (arith, is_self s)) ∙ e
Current-elsewhere h h' (source_written s t g) e same = tt
Current-elsewhere h h' (target_read s t v g) e same = same t (omega (arith, is_self t)) ∙ e
Current-elsewhere h h' (both_done s t) e same = tt
Current-elsewhere h h' (target_only t) e same = tt

AllCurrent-elsewhere :
    (h h' : ℕ → ℤ) (l : List Place)
    → AllCurrent h l
    → ((q : ℕ) → 1 ≤ total (has q) l → h' q ≡ h q)
    → AllCurrent h' l
AllCurrent-elsewhere h h' [] e same = tt
AllCurrent-elsewhere h h' (x ∷ l) (e, es) same = (
  Current-elsewhere h h' x e (λ q here. same q (omega arith)),
  AllCurrent-elsewhere h h' l es (λ q here. same q (omega arith)),
)

split-AllCurrent :
    (h : ℕ → ℤ) (a b : List Place) (x : Place)
    → AllCurrent h (a ++ x ∷ b)
    → AllCurrent h a × Current h x × AllCurrent h b
split-AllCurrent h [] b x (e, es) = (tt, e, es)
split-AllCurrent h (y ∷ a) b x (e, es) =
    let (in_a, in_x, in_b) = split-AllCurrent h a b x es in ((e, in_a), in_x, in_b)

append-AllCurrent :
    (h : ℕ → ℤ) (a b : List Place) (x : Place)
    → AllCurrent h a
    → Current h x
    → AllCurrent h b
    → AllCurrent h (a ++ x ∷ b)
append-AllCurrent h [] b x in_a in_x in_b = (in_x, in_b)
append-AllCurrent h (y ∷ a) b x (e, in_a) in_x in_b = (e, append-AllCurrent h a b x in_a in_x in_b)

record IsSound (s : State) : Type 0 where
  locks : (q : ℕ) → total (has q) s.threads ≡ bit (s.account_lock q)
  current : AllCurrent s.balance s.threads
  agree : (q : ℕ) → s.balance q ≡ s.committed q

start-IsSound : (balance : ℕ → ℤ) (n : ℕ) → IsSound (start balance n)
start-IsSound balance n = record {
  locks = λ q. total-replicate (has q) n idle refl;
  current = idle-AllCurrent n;
  agree = λ q. refl;
}
  where
    idle-AllCurrent : (m : ℕ) → AllCurrent balance (replicate m idle)
    idle-AllCurrent zero = tt
    idle-AllCurrent (suc m) = (tt, idle-AllCurrent m)

-- What the thread changes, the others do not hold.
unshared :
    (l : List Place) (x : Place) (h h' : ℕ → ℤ)
    → ((q : ℕ) → total (has q) l + has q x ≤ 1)
    → ((q : ℕ) → (h' q ≡ h q) ⊎ (1 ≤ has q x))
    → (q : ℕ) → 1 ≤ total (has q) l
    → h' q ≡ h q
unshared l x h h' alone own q here = elim (own q) [
  | inl same ↦ same
  | inr mine ↦ absurd (omega (arith, alone q))
]

-- A thread's move that changes locks as it changes what the thread has, and only such balances as
-- the thread holds.
move-IsSound :
    (a b : List Place) (x y : Place) (k k' : ℕ → Bool) (h h' c c' : ℕ → ℤ)
    → ((q : ℕ) → has q x ≤ bit (k q) → bit (k' q) + has q x ≡ bit (k q) + has q y)
    → ((q : ℕ) → (h' q ≡ h q) ⊎ (1 ≤ has q x))
    → Current h' y
    → (Current h x → ((q : ℕ) → h q ≡ c q) → (q : ℕ) → h' q ≡ c' q)
    → IsSound (at a b x k h c)
    → IsSound (at a b y k' h' c')
move-IsSound a b x y k k' h h' c c' on_locks own in_y agrees sound =
    let (in_a, in_x, in_b) = split-AllCurrent h a b x sound.current in
    let alone : (q : ℕ) → total (has q) a + (has q x + total (has q) b) ≤ 1 =
      λ q. omega (arith, sound.locks q, bit_le_one (k q), total-append (has q) a (x ∷ b)) in
    record {
      locks = λ q. omega (
        arith,
        total-move (has q) a b x y,
        sound.locks q,
        on_locks q (omega (arith, le_total (has q) a b x, sound.locks q)),
      );
      current =
          append-AllCurrent h' a b y
            (AllCurrent-elsewhere h h' a in_a (unshared a x h h' (λ q. omega (arith, alone q)) own))
            in_y
            (AllCurrent-elsewhere h h' b in_b
              (unshared b x h h' (λ q. omega (arith, alone q)) own));
      agree = agrees in_x sound.agree;
    }

-- A move that changes no balance.
still-IsSound :
    (a b : List Place) (x y : Place) (k k' : ℕ → Bool) (h c : ℕ → ℤ)
    → ((q : ℕ) → has q x ≤ bit (k q) → bit (k' q) + has q x ≡ bit (k q) + has q y)
    → Current h y
    → IsSound (at a b x k h c)
    → IsSound (at a b y k' h c)
still-IsSound a b x y k k' h c on_locks in_y =
    move-IsSound a b x y k k' h h c c on_locks (λ q. inl refl) in_y (λ in_x agree. agree)

-- A change of the balance of `p`, from what was read of it.
put_balance-own :
    (p : ℕ) (v : ℤ) (h : ℕ → ℤ) (x : Place)
    → 1 ≤ has p x
    → (q : ℕ) → (put_balance p v h q ≡ h q) ⊎ (1 ≤ has q x)
put_balance-own p v h x mine q = elim (Bool-cases (q == p)) [
  | inl same ↦ inr (rw ((==_iff q p).0 same) mine)
  | inr other ↦ inl (rw other refl)
]

put_balance-agrees :
    (p : ℕ) (v : ℤ) (f : ℤ → ℤ) (h c : ℕ → ℤ)
    → h p ≡ v
    → ((q : ℕ) → h q ≡ c q)
    → (q : ℕ) → put_balance p (f v) h q ≡ put_balance p (f (c p)) c q
put_balance-agrees p v f h c read agree q = elim (Bool-cases (q == p)) [
  | inl same ↦ rw same (ap f (sym read ∙ agree p))
  | inr other ↦ rw other (agree q)
]

Step-IsSound : {s s' : State} → Step s s' → IsSound s → IsSound s'
Step-IsSound (lock_one a b p f k h c free) =
    still-IsSound a b idle (one p f) k (put_lock p true k) h c
      (λ q l. omega (arith, taken k p q free)) tt
Step-IsSound (read_one a b p f k h c) =
    still-IsSound a b (one p f) (one_read p (h p) f) k k h c (λ q l. refl) refl
Step-IsSound (refuse_one a b p f k h c) =
    still-IsSound a b (one p f) (one_done p) k k h c (λ q l. refl) tt
Step-IsSound (write_one a b p v f k h c) =
    move-IsSound a b (one_read p v f) (one_done p) k k h _ c _ (λ q l. refl)
      (put_balance-own p (f v) h (one_read p v f) (omega (arith, is_self p))) tt
      (put_balance-agrees p v f h c)
Step-IsSound (unlock_one a b p k h c) =
    still-IsSound a b (one_done p) idle k (put_lock p false k) h c
      (λ q l. omega (arith, released k p q (omega (arith, l)))) tt
Step-IsSound (lock_source a b s t f g k h c free) =
    still-IsSound a b idle (half s t f g) k (put_lock s true k) h c
      (λ q l. omega (arith, taken k s q free)) tt
Step-IsSound (lock_target a b s t f g k h c free) =
    still-IsSound a b (half s t f g) (both s t f g) k (put_lock t true k) h c
      (λ q l. omega (arith, taken k t q free)) tt
Step-IsSound (refuse_both a b s t f g k h c) =
    still-IsSound a b (both s t f g) (both_done s t) k k h c (λ q l. refl) tt
Step-IsSound (read_source a b s t f g k h c) =
    still-IsSound a b (both s t f g) (source_read s t (h s) f g) k k h c (λ q l. refl) refl
Step-IsSound (too_low a b s t v f g k h c) =
    still-IsSound a b (source_read s t v f g) (both_done s t) k k h c (λ q l. refl) tt
Step-IsSound (write_source a b s t v f g k h c) =
    move-IsSound a b (source_read s t v f g) (source_written s t g) k k h _ c _ (λ q l. refl)
      (put_balance-own s (f v) h (source_read s t v f g) (omega (arith, is_self s))) tt
      (put_balance-agrees s v f h c)
Step-IsSound (read_target a b s t g k h c) =
    still-IsSound a b (source_written s t g) (target_read s t (h t) g) k k h c (λ q l. refl) refl
Step-IsSound (write_target a b s t v g k h c) =
    move-IsSound a b (target_read s t v g) (both_done s t) k k h _ c _ (λ q l. refl)
      (put_balance-own t (g v) h (target_read s t v g) (omega (arith, is_self t))) tt
      (put_balance-agrees t v g h c)
Step-IsSound (unlock_source a b s t k h c) =
    still-IsSound a b (both_done s t) (target_only t) k (put_lock s false k) h c
      (λ q l. omega (arith, released k s q (omega (arith, l)))) tt
Step-IsSound (unlock_target a b t k h c) =
    still-IsSound a b (target_only t) idle k (put_lock t false k) h c
      (λ q l. omega (arith, released k t q (omega (arith, l)))) tt

Reaches-IsSound : (balance : ℕ → ℤ) (n : ℕ) (s : State) → Reaches balance n s → IsSound s
Reaches-IsSound balance n s begins = start-IsSound balance n
Reaches-IsSound balance n s (goes_on {s = u} before step) =
    Step-IsSound step (Reaches-IsSound balance n u before)

-- No change of a balance is lost: however many threads there are, whatever they change and in
-- whatever order their steps run, each balance is what it comes to where every change reads and
-- writes in one step.
pub no_lost_update :
    (balance : ℕ → ℤ) (n : ℕ) (s : State)
    → Reaches balance n s
    → (q : ℕ) → s.balance q ≡ s.committed q
no_lost_update balance n s run = (Reaches-IsSound balance n s run).agree
