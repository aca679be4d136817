-- ===== src/Lib.antt =====
-- Models and proofs for the programs of three assignments: the shell of HW1, the bank of HW4 and
-- the file server of HW5.
--
-- HW1 is a shell, smash, with built-in commands, a list of jobs and handlers of ctrl-C and ctrl-Z.
--   Shell/State: `class job` (HW1/jobs.h), the globals of HW1/smash.cpp, lines printed, system calls
--   Shell/Monad: what smash does: it goes on, exits, crashes, or is the child that `fork` made
--   Shell/Words: `strtok`, `is_built_in_cmd` and the ampersand, of HW1/commands.cpp
--   Shell/Jobs: `update_list` and new jobs
--   Shell/Commands, Shell/JobCommands: the commands of `ExeCmd`, one function each
--   Shell/Smash: `ExeExternal`, `ExeCmd`, `BgCmd`, the handlers of HW1/signals.cpp, the loop of `main`
--   Shell/Numbers, Shell/Numbered, Shell/Invariant, Shell/Session: the numbers of the jobs
--   Shell/Tokens, Shell/Compare: what `strtok` and `diff` find
--   Shell/Background, Shell/Foreground, Shell/Suspend: `bg`, `fg`, and `fg` behind ctrl-Z
-- The results of system calls are a parameter, a function of the calls' numbers, and so are
-- what `jobs.end()->job_id` reads and what `diff` reads behind the end of a file. Memory that is read
-- after it was erased is taken to hold what it held. A signal is handled between two commands. A
-- line fits in its buffer.
--
-- HW4 is a bank whose accounts several automatic teller machines (ATMs) use, each a thread that
-- carries out the commands of an input file and writes log.txt, while one thread takes commissions
-- and another prints the accounts.
--   Bank/Dict: `std::map` of account numbers to accounts, which are places in a list of accounts
--   Bank/State: `class account` (HW4/account.h), `class bank` (HW4/bank.h), the lines of log.txt
--   Bank/Monad: what a thread does while no other runs, with `pthread_mutex_lock` and its kin; a
--     mutex that is held stops it, so that a lock that is never released shows
--   Bank/Locks: the readers-writer locks of HW4/account.cpp, HW4/bank.cpp and HW4/atm.cpp
--   Bank/Readers: the lock of the list of accounts again, for any number of threads, an instruction at
--     a time, with what a thread does under it as one step; Bank/Readers/Exclusion and
--     Bank/Readers/Progress are on what it keeps
--   Bank/Threads: the locks of the accounts, `transfer_lock` and `log_print_lock` for any number of
--     threads that make deposits, withdrawals, commissions and transfers under the read lock of the
--     list, an instruction at a time; Bank/Threads/Exclusion is on who holds an account,
--     Bank/Threads/Work and Bank/Threads/Progress on how they end
--   Bank/Updates: the balances that these threads read and write under the locks, a step at a time,
--     beside what they come to where each change is one step; Bank/Updates/Current relates the two
--   Bank/Totals: counting threads by their places
--   Bank/Atm: the operations of HW4/atm.cpp, with every lock and every branch
--   Bank/Script: `atm::parser_file`, over a model of `stringstream`
--   Bank/Fees: `bank::fee_collection` of HW4/bank.cpp; the rounding in floating point is a parameter
--   Bank/Status: `bank::accounts_status_print` of HW4/bank.cpp
--   Bank/Ledger: the specification, in which the bank is a balance and a password for each number
--   Bank/Invariant: what a valid bank is, and the ledger that it stands for
--   Bank/Refines, Bank/Replay: the operations and whole files against the specification
--   Bank/Numerals, Bank/Written: the lines of an input file as they are meant to be written
--   Bank/Money, Bank/Fees/Conserved: where the money goes
--   Bank/Repeats, Bank/Reclose: blank lines, and accounts that are closed under an old number
--   Bank/Kept: what its two maps keep
--   Bank/Fees/Ledger: a round of commissions against the specification
--   Bank/System: `main` of HW4/bank.cpp, with its arguments, the ATMs, the handlers of the threads, the
--     joins and the end of the bank; Bank/System/History, Bank/System/Turns, Bank/System/Free and
--     Bank/System/End: threads in any order, against a history of the ledger
-- The ATMs and the threads for commissions and for the print meet in the bank's state and locks. In
-- Bank/System they run in turns, each a whole line or round from a bank whose locks are free;
-- interleavings inside an operation are modelled apart from that: for the lock of the list of
-- accounts, and for what deposits, withdrawals, commissions and transfers lock under it, and for the
-- balances that these change.
--
-- HW5 is a file server over UDP for write requests of the trivial file transfer protocol.
--   Server/Io: files, datagrams sent, and system calls that may fail; a failure ends the process
--   Server/Packet: the packets of HW5/server.h as bytes, and who sends them
--   Server/Transfer: `recieving_data_mode` of HW5/server.cpp, over a list of what each `select` meets
--   Server/Request: `wrq_parser`, the loop of `main` in HW5/ttftps.cpp, and how it reads its arguments
--   Server/Main: `main` of HW5/ttftps.cpp from its arguments
--   Server/Bytes, Server/Names, Server/Upload, Server/Abandon, Server/Progress, Server/Blocks,
--     Server/Contents, Server/Ends, Server/Whole, Server/Uploads: what follows for names, for a file
--     that arrives, for silence and wrong packets, for any events, and for whole requests, one and many
--
-- Prelude: numbers, lists, texts, characters and C's `int`, which wraps at 32 bits where the
-- language leaves overflow open. Texts are lists of bytes.
--
-- Every loop is a structural recursion over the lines of a file, the entries of a map, the draws of
-- `rand`, the turns of the threads, the jobs, the inputs of smash or the events at a socket, so that
-- none needs fuel. Waiting is counted and takes no time.
-- Not modelled: the creation of threads where it fails, the address of a socket, the signals that
-- arrive inside a command of smash, the locks for reading of an account, which a check of a balance
-- and the print take, where operations interleave, and the text of the lines that are written, which
-- are kept as their values.
pub mod Prelude
pub mod Bank
pub mod Server
pub mod Shell
