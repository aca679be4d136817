-- ===== src/Bank/Monad.antt =====
-- What one thread does while no other runs: it returns, stops at a mutex that is held, or follows
-- a dangling pointer.
use structure_of_os.Prelude.{
  ℕ, ◌+◌, Bool, true, false, [], ◌∷◌, ◌++◌, none, some, ⊤, get_elem?, set,
}
use structure_of_os.Bank.State.{
  Account, Message, Vault, Sync, Bank, Mutex, log_print, transfer, account_list_read,
  account_list_write, stdout_print, account_read, account_write,
}

pub data Outcome (A : Type 0) : Type 0 where
  done : A → Bank → Outcome A
  blocked : Mutex → Bank → Outcome A
  dangling : ℕ → Bank → Outcome A

abbrev pub Action : Type 0 → Type 0
Action A = Bank → Outcome A

abbrev pub pure : {A : Type 0} → A → Action A
pure a b = done a b

infixl 5 ◌>>=◌ ◌>>◌
abbrev pub ◌>>=◌ : {A B : Type 0} → Action A → (A → Action B) → Action B
◌>>=◌ m f b = elim (m b) [
  | done a b' ↦ f a b'
  | blocked k b' ↦ blocked k b'
  | dangling p b' ↦ dangling p b'
]

abbrev pub ◌>>◌ : {B : Type 0} → Action ⊤ → Action B → Action B
m >> k = m >>= λ _. k

abbrev pub gets : {A : Type 0} → (Vault → A) → Action A
gets f b = done (f b.vault) b

abbrev pub modify : (Vault → Vault) → Action ⊤
modify f b = done tt (record b { vault = f b.vault })

abbrev pub gets_sync : {A : Type 0} → (Sync → A) → Action A
gets_sync f b = done (f b.sync) b

abbrev pub modify_sync : (Sync → Sync) → Action ⊤
modify_sync f b = done tt (record b { sync = f b.sync })

-- `*pointer` as it is read, and as it is written.
abbrev pub load : ℕ → Action Account
load p b = elim (get_elem? b.vault.accounts p) [ none ↦ dangling p b | some a ↦ done a b ]

abbrev pub store : ℕ → (Account → Account) → Action ⊤
store p f = load p >>= λ a. modify (λ v. record v { accounts = set v.accounts p (f a) })

-- `sleep(ACTION_SLEEP_TIME)`
abbrev pub sleep : Action ⊤
sleep = modify λ v. record v { slept = v.slept + 1 }

-- Take a mutex whose state is the flag, or wait for it.
abbrev take_free : Bool → Mutex → Action ⊤ → Action ⊤
take_free true k act b = blocked k b
take_free false k act b = act b

-- `pthread_mutex_lock`
abbrev pub lock : Mutex → Action ⊤
lock log_print = gets_sync (λ s. s.log_print_lock) >>= λ held.
    take_free held log_print (modify_sync λ s. record s { log_print_lock = true })
lock transfer = gets_sync (λ s. s.transfer_lock) >>= λ held.
    take_free held transfer (modify_sync λ s. record s { transfer_lock = true })
lock account_list_read = gets_sync (λ s. s.account_list_read_lock) >>= λ held.
    take_free held account_list_read (modify_sync λ s. record s { account_list_read_lock = true })
lock account_list_write = gets_sync (λ s. s.account_list_write_lock) >>= λ held.
    take_free held account_list_write (modify_sync λ s. record s { account_list_write_lock = true })
lock stdout_print = gets_sync (λ s. s.stdout_print_lock) >>= λ held.
    take_free held stdout_print (modify_sync λ s. record s { stdout_print_lock = true })
lock (account_read p) = load p >>= λ a.
    take_free a.lock_read (account_read p) (store p λ c. record c { lock_read = true })
lock (account_write p) = load p >>= λ a.
    take_free a.lock_write (account_write p) (store p λ c. record c { lock_write = true })

-- `pthread_mutex_unlock`
abbrev pub unlock : Mutex → Action ⊤
unlock log_print = modify_sync λ s. record s { log_print_lock = false }
unlock transfer = modify_sync λ s. record s { transfer_lock = false }
unlock account_list_read = modify_sync λ s. record s { account_list_read_lock = false }
unlock account_list_write = modify_sync λ s. record s { account_list_write_lock = false }
unlock stdout_print = modify_sync λ s. record s { stdout_print_lock = false }
unlock (account_read p) = store p λ a. record a { lock_read = false }
unlock (account_write p) = store p λ a. record a { lock_write = false }

-- One line of log.txt, between the lock and the unlock of `log_print_lock`.
abbrev pub write_log : Message → Action ⊤
write_log line =
    lock log_print >> (modify λ v. record v { log = v.log ++ line ∷ [] }) >> unlock log_print
