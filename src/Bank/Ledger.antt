-- ===== src/Bank/Ledger.antt =====
-- The bank as its customers see it: a balance and a password for each open account. What an ATM
-- command promises is a new ledger and one line of log.txt.
use structure_of_os.Prelude.{
  ℕ, ℤ, ◌≡◌, true, false, Option, none, some, Text, text_eq, ltb_ℤ, eqb_ℤ, if◌then◌else◌,
}
use structure_of_os.Prelude.Int.{int_add, int_sub}
use structure_of_os.Bank.State.{
  Message, opened, already_exists, does_not_exist, wrong_password, deposited, withdrew,
  balance_too_low, closed, balance_is, transferred,
}

pub record Entry : Type 0 where
  pub balance : ℤ
  pub password : Text

abbrev pub Ledger : Type 0
Ledger = ℤ → Option Entry

abbrev pub put : ℤ → Option Entry → Ledger → Ledger
put k e l j = if eqb_ℤ j k then e else l j

abbrev pub Spec : Type 0
Spec = Ledger → Ledger × Message

abbrev pub refused : Message → Ledger → Ledger × Message
refused line l = (l, line)

abbrev pub with_balance : ℤ → Entry → Option Entry
with_balance b e = some (record e { balance = b })

module _ (atm : ℕ) where
  abbrev pub create : ℤ → Text → ℤ → Spec
  create id password balance l = elim (l id) [
    | none ↦ (
      put id (some (record { balance = balance; password = password })) l,
      opened atm id password balance,
    )
    | some _ ↦ (l, already_exists atm)
  ]

  -- Only who knows the password of an open account gets further.
  abbrev pub check_password : ℤ → Text → (Entry → Ledger × Message) → Spec
  check_password id password f l = elim (l id) [
    | none ↦ (l, does_not_exist atm id)
    | some e ↦ if text_eq e.password password then f e else (l, wrong_password atm id)
  ]

  pub check_password-absent :
      (id : ℤ) (password : Text) (f : Entry → Ledger × Message) (l : Ledger)
      → l id ≡ none
      → check_password id password f l ≡ (l, does_not_exist atm id)
  check_password-absent id password f l e = rw (e, check_password)

  pub check_password-right :
      (id : ℤ) (password : Text) (f : Entry → Ledger × Message) (l : Ledger) (e : Entry)
      → l id ≡ some e
      → text_eq e.password password ≡ true
      → check_password id password f l ≡ f e
  check_password-right id password f l e h same = rw (h, check_password, same)

  pub check_password-wrong :
      (id : ℤ) (password : Text) (f : Entry → Ledger × Message) (l : Ledger) (e : Entry)
      → l id ≡ some e
      → text_eq e.password password ≡ false
      → check_password id password f l ≡ (l, wrong_password atm id)
  check_password-wrong id password f l e h same = rw (h, check_password, same)

  abbrev pub deposit : ℤ → Text → ℤ → Spec
  deposit id password amount l =
      check_password id password
        (λ e.
          let b = int_add e.balance amount in
          (put id (with_balance b e) l, deposited atm id b amount))
        l

  abbrev pub withdraw : ℤ → Text → ℤ → Spec
  withdraw id password amount l =
      check_password id password
        (λ e.
          let b = int_sub e.balance amount in
          if ltb_ℤ e.balance amount
          then (l, balance_too_low atm id amount)
          else (put id (with_balance b e) l, withdrew atm id b amount))
        l

  abbrev pub check : ℤ → Text → Spec
  check id password l = check_password id password (λ e. (l, balance_is atm id e.balance)) l

  abbrev pub close : ℤ → Text → Spec
  close id password l = check_password id password (λ e. (put id none l, closed atm id e.balance)) l

  -- The part of `transfer` after both accounts are found.
  abbrev pub move : ℤ → ℤ → ℤ → Entry → Ledger → Entry → Ledger × Message
  move source target amount d l e =
      let b = int_sub e.balance amount in
      let c = int_add d.balance amount in
      if ltb_ℤ e.balance amount then (l, balance_too_low atm source amount) else (
        put target (with_balance c d) (put source (with_balance b e) l),
        transferred atm amount source target b c,
      )

  -- Both accounts are looked up before the password is tested.
  abbrev pub transfer : ℤ → Text → ℤ → ℤ → Spec
  transfer source password target amount l = elim (l source) [
    | none ↦ (l, does_not_exist atm source)
    | some _ ↦ elim (l target) [
      | none ↦ (l, does_not_exist atm target)
      | some d ↦ check_password source password (move source target amount d l) l
    ]
  ]

  pub transfer-open :
      (source : ℤ) (password : Text) (target amount : ℤ) (l : Ledger) (e d : Entry)
      → l source ≡ some e
      → l target ≡ some d
      → transfer source password target amount l
        ≡ check_password source password (move source target amount d l) l
  transfer-open source password target amount l e d h k = rw (h, transfer, k)
