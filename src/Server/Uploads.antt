-- ===== src/Server/Uploads.antt =====
-- `main` of HW5 (ttftps.cpp) over any number of uploads, one after another.
mod Tests
use structure_of_os.Prelude.{
  ℕ, zero, suc, ◌+◌, ◌-◌, ◌≤◌, ℤ, ◌≡◌, ◌∙◌, sym, refl, ap, fun_ext, true, false, Option, none, some,
  List, [], ◌∷◌, ◌++◌, append_assoc, append-nil, Text, length, drop, replicate, text_eq,
  text_eq_refl, text_eq_sound, arith, Bool-cases, inl, inr, if◌then◌else◌,
}
use structure_of_os.Server.Io.{
  Address, Datagram, World, done, pure, content, put_file, add_to_file, ◌>>=◌,
}
use structure_of_os.Server.Transfer.{Event, datagram, Session}
use structure_of_os.Server.Request.{Wrq, Server, listening, copy_name, configure, serve}
use structure_of_os.Server.Upload.{calm, ack, Delivers}
use structure_of_os.Server.Names.{IsName, request}
use structure_of_os.Server.Whole.{session, asked, uploaded, put_upload, serve-upload, drop-eq-nil}
use structure_of_os.Server.Main.{Stage, in_loop, new_server, main, listen}

-- Uploads in order: behind the name `old` come those with the files `texts` (their names, and what
-- they hold), and the server answers with `out`. No name is shorter than the one before it.
pub data Uploads (resends : ℤ)
    : Text → List Event → List (Text × Text) → List Datagram → Type 0 where
  no_more : {old : Text} → Uploads resends old [] [] []
  upload :
      {old : Text} (name mode text : Text) (client : Address) {later es : List Event}
      {texts : List (Text × Text)} {out outs : List Datagram}
      → IsName name
      → length old ≤ length name
      → length (request name mode) ≤ 516
      → Delivers
          (record { file_name = name; client = client; max_num_of_resends = resends })
          later
          0
          es
          text
          out
      → Uploads resends name later texts outs
      → Uploads resends old (datagram client (request name mode) ∷ es) ((name, text) ∷ texts) (
          (ack (record { file_name = name; client = client; max_num_of_resends = resends }) 0 ∷ out)
          ++ outs)

-- What is stored under each name.
abbrev pub Disk : Type 0
Disk = Text → Option Text

abbrev pub store : Text → Text → Disk → Disk
store name text disk m = if text_eq name m then some text else disk m

abbrev pub store_all : List (Text × Text) → Disk → Disk
store_all [] disk = disk
store_all ((name, text) ∷ texts) disk = store_all texts (store name text disk)

-- Each name is new when its turn comes.
abbrev pub AllNew : List (Text × Text) → Disk → Type 0
AllNew [] disk = Unit
AllNew ((name, text) ∷ texts) disk = (disk name ≡ none) × AllNew texts (store name text disk)

abbrev pub disk_of : List (Text × Text) → Disk
disk_of files m = content m files

apart_from :
    (k name m : Text) → text_eq k name ≡ false → text_eq k m ≡ true → text_eq name m ≡ false
apart_from k name m other here = elim (Bool-cases (text_eq name m)) [
  | inr ne ↦ ne
  | inl same ↦
      let a : k ≡ m = text_eq_sound k m here in
      let b : name ≡ m = text_eq_sound name m same in cc (other, text_eq_refl name, a, b)
]

put_upload-store_at :
    (name text : Text) (files : List (Text × Text)) (m : Text)
    → content name files ≡ none
    → content m (put_upload name text files) ≡ store name text (disk_of files) m
put_upload-store_at name text [] m new = rw (text_eq_refl name) refl
put_upload-store_at name text ((k, c) ∷ files) m new = elim (Bool-cases (text_eq k name)) [
  | inl same ↦ cc (rw same at new)
  | inr other ↦
      rw (other, other)
        (elim (Bool-cases (text_eq k m)) [
          | inl here ↦ rw (here, apart_from k name m other here) refl
          | inr there ↦ rw there (put_upload-store_at name text files m (rw other at new))
        ])
]

put_upload-store :
    (name text : Text) (files : List (Text × Text))
    → disk_of files name ≡ none
    → disk_of (put_upload name text files) ≡ store name text (disk_of files)
put_upload-store name text files new = fun_ext (λ m. put_upload-store_at name text files m new)

drop-replicate : (n j : ℕ) → drop {A = ℕ} n (replicate j 0) ≡ replicate (j - n) 0
drop-replicate zero j = let same : j ≡ j - 0 = omega arith in ap (λ i. replicate i 0) same
drop-replicate (suc n) zero = let same : 0 ≡ 0 - suc n = omega arith in ap (λ i. replicate i 0) same
drop-replicate (suc n) (suc j) =
    let same : j - n ≡ suc j - suc n = omega arith in
    drop-replicate n j ∙ ap (λ i. replicate i 0) same

-- Behind a name that is not shorter than the old one the buffer holds zeros.
zeros_behind :
    (n : ℕ) (old : Text) (j : ℕ)
    → length old ≤ n
    → (i : ℕ) × (drop n (old ++ replicate j 0) ≡ replicate i 0)
zeros_behind n [] j h = (j - n, drop-replicate n j)
zeros_behind zero (c ∷ old) j h = absurd (omega arith)
zeros_behind (suc n) (c ∷ old) j h = zeros_behind n old j (omega arith)

-- What a sequence of uploads comes to.
pub record Stored (v : Server) (es : List Event) (files : List (Text × Text))
    (sent out : List Datagram) (disk : Disk) : Type 0 where
  pub server : Server
  pub files' : List (Text × Text)
  pub listens : server.mode ≡ listening
  pub serves : serve v es (calm files sent) ≡ done server (calm files' (sent ++ out))
  pub on_disk : disk_of files' ≡ disk

abbrev server_at : ℤ → Wrq → Server
server_at resends q = record { wrq = q; max_num_of_resends = resends; mode = listening }

uploads-Stored :
    (resends : ℤ) (q : Wrq) (old : Text) (j : ℕ) (files : List (Text × Text)) (sent : List Datagram)
    {es : List Event} {texts : List (Text × Text)} {out : List Datagram}
    → IsName old
    → q.file_name ≡ old ++ replicate j 0
    → Uploads resends old es texts out
    → AllNew texts (disk_of files)
    → Stored (server_at resends q) es files sent out (store_all texts (disk_of files))
unfolding serve
uploads-Stored resends q old j files sent o e no_more new = record {
  server = server_at resends q;
  files' = files;
  listens = refl;
  serves = ap (λ d. done (server_at resends q) (calm files d)) (sym (append-nil sent));
  on_disk = refl;
}
uploads-Stored resends q old j files sent o e
      (upload name mode text client {later} {es} {texts} {out} {outs} n longer fits d rest)
      (absent, new) =
    let v = server_at resends q in
    let (i, zeros) = zeros_behind (length name) old j longer in
    let stored = put_upload-store name text files absent in
    let r =
      uploads-Stored resends (asked q name) name i (put_upload name text files)
        (sent ++ ack (session v name client) 0 ∷ out) n
        (ap (copy_name name) e ∙ ap (λ z. name ++ z) zeros) rest (rw stored new) in
    record {
      server = r.server;
      files' = r.files';
      listens = r.listens;
      serves =
          serve-upload v name mode old j client files sent later refl n o e longer fits absent d
          ∙ r.serves
          ∙ ap (λ q. done r.server (calm r.files' q))
              (append_assoc sent (ack (session v name client) 0 ∷ out) outs);
      on_disk = r.on_disk ∙ ap (store_all texts) stored;
    }

-- The calls of `socket` and `bind` and all that follow succeed.
main-listen :
    (port timeout resends : Text) (p t : ℕ) (r : ℤ) (es : List Event) (files : List (Text × Text))
    → configure port timeout resends ≡ some (p, t, r)
    → main (port ∷ timeout ∷ resends ∷ []) es (calm files [])
      ≡ (serve (new_server r) es >>= λ v. pure (in_loop v)) (calm files [])
unfolding main
main-listen port timeout resends p t r es files good = ap (λ c. listen c es (calm files [])) good

-- Started with arguments that are numbers, and where the system calls succeed and no `select`
-- runs out of time, the server takes any number of uploads one after another: each file is
-- stored byte for byte under the name that was asked for, nothing else on the disk changes, each
-- block is acknowledged and each stranger refused in turn, and the server listens again. Each
-- name must be new and no shorter than the one before it, each request has at most 516 bytes,
-- and each file has fewer than 65536 blocks, which its client sends once each and in order, the
-- last one shorter than 512 bytes.
pub main-Stored :
    (port timeout resends : Text) (p t : ℕ) (r : ℤ) (files : List (Text × Text)) {es : List Event}
    {texts : List (Text × Text)} {out : List Datagram}
    → configure port timeout resends ≡ some (p, t, r)
    → Uploads r [] es texts out
    → AllNew texts (disk_of files)
    → (v : Server) × (files' : List (Text × Text)) × (main
          (port ∷ timeout ∷ resends ∷ [])
          es
          (calm files [])
        ≡ done (in_loop v) (calm files' out))
      × (v.mode ≡ listening)
      × (disk_of files' ≡ store_all texts (disk_of files))
main-Stored port timeout resends p t r files {es} good uploads new =
    let s =
      uploads-Stored r (record { opcode = 0; file_name = replicate 515 0 }) [] 515 files [] tt refl
        uploads new in
    (
      s.server,
      s.files',
      main-listen port timeout resends p t r es files good ∙ rw (◌>>=◌, s.serves) refl,
      s.listens,
      s.on_disk,
    )
