-- ===== src/Server/Main.antt =====
-- `main` of HW5 (ttftps.cpp) from its arguments: the socket, and then the loop over what arrives.
use structure_of_os.Prelude.{
  ℕ, ℤ, Option, none, some, List, [], ◌∷◌, Text, replicate, ⊤, if◌then◌else◌,
}
use structure_of_os.Server.Io.{Io, pure, ◌>>=◌, ◌>>◌, succeeds, sys_call_error}
use structure_of_os.Server.Transfer.{Event}
use structure_of_os.Server.Request.{Server, listening, configure, serve}

-- It refuses its arguments and exits (`arg_error`), or it is in its loop, which has no end.
pub data Stage : Type 0 where
  refused : Stage
  in_loop : Server → Stage

-- The variables before the loop: `wrq_strcut` is cleared.
abbrev pub new_server : ℤ → Server
new_server resends = record {
  wrq = record { opcode = 0; file_name = replicate 515 0 };
  max_num_of_resends = resends;
  mode = listening;
}

-- `socket` or `bind`, and the exit where it fails.
abbrev pub call_or_exit : Io ⊤
call_or_exit = do ok ← succeeds; if ok then pure tt else sys_call_error

abbrev pub listen : Option (ℕ × ℕ × ℤ) → List Event → Io Stage
unfolding serve
listen none es = pure refused
listen (some (port, timeout, resends)) es =
    call_or_exit >> (call_or_exit >> (serve (new_server resends) es >>= λ v. pure (in_loop v)))

-- `main`, from its arguments after the name of the program.
unfoldable pub main : List Text → List Event → Io Stage
unfolding serve configure
main (port ∷ timeout ∷ resends ∷ []) es = listen (configure port timeout resends) es
main _ es = pure refused
