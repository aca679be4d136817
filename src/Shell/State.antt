-- ===== src/Shell/State.antt =====
-- The state of HW1: `class job`, the globals of smash.cpp and commands.cpp, what smash prints and
-- the system calls that it makes.
use structure_of_os.Prelude.{ℕ, ℤ, Bool, Option, List, [], Text}

-- `class job`; `bg_flag` is never set or read.
pub record Job : Type 0 where
  pub job_id : ℤ
  pub command : Text
  pub process_id : ℤ
  pub inserted_to_list_time : ℤ
  pub state : ℕ

-- `job::job`
abbrev pub new_job : ℤ → Text → ℤ → ℤ → ℕ → Job
new_job job_id command process_id inserted_to_list_time state = record {
  job_id = job_id;
  command = command;
  process_id = process_id;
  inserted_to_list_time = inserted_to_list_time;
  state = state;
}

-- The values of `state`.
abbrev pub foreground_state : ℕ
foreground_state = 1

abbrev pub background_state : ℕ
background_state = 2

abbrev pub stop_state : ℕ
stop_state = 3

-- What smash writes on its output, by the values that a line shows.
pub data Line : Type 0 where
  smash_pid_is : (pid : ℤ) → Line
  path_is : (path : Text) → Line
  too_many_arguments invalid_arguments : (command : Text) → Line
  old_pwd_not_set : Line
  call_failed : (call : Text) → Line
  job_is : (id : ℤ) (command : Text) (pid seconds : ℤ) (stopped : Bool) → Line
  signal_sent : (signal pid : ℤ) → Line
  no_such_job : (command : Text) (id : ℤ) → Line
  no_such_argument : (argument : Text) → Line
  jobs_list_is_empty : Line
  resumes : (command : Text) (number : ℤ) → Line
  no_stopped_jobs : Line
  already_running : (id : ℤ) → Line
  differs : (found : Bool) → Line
  caught_ctrl_c caught_ctrl_z : Line
  was_killed was_stopped : (pid : ℤ) → Line

-- A call whose result smash uses.
pub data Call : Type 0 where
  kill : (pid signal : ℤ) → Call
  waitpid : (pid : ℤ) → Call
  wait_status : (pid : ℤ) → Call
  fork : (args : List Text) → Call
  chdir : (path : Text) → Call
  getcwd : Call
  time : Call

pub record Shell : Type 0 where
  pub jobs : List Job
  pub fg_process_pid : ℤ
  pub smash_pid : ℤ
  pub l_fg_cmd : Text
  pub previous_path : Text
  pub out : List Line
  pub calls : List Call

-- When smash starts.
abbrev pub new_shell : ℤ → Shell
new_shell pid = record {
  jobs = [];
  fg_process_pid = pid;
  smash_pid = pid;
  l_fg_cmd = [];
  previous_path = [];
  out = [];
  calls = [];
}

-- What smash meets outside: the results of its system calls by the calls' numbers, the paths that
-- `getcwd` gives, the contents of files, and two reads which the language leaves open: of
-- `jobs.end()->job_id`, and of the characters, one after the other, that an `istream_iterator<char>`
-- reads behind the end of a file.
pub record Os : Type 0 where
  pub answers : ℕ → ℤ
  pub paths : ℕ → Text
  pub files : Text → Option Text
  pub end_id : List Job → ℤ
  pub past_end : Text → ℕ → ℕ
