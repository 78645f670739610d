-- ===== src/Session.antt =====
-- server.go: the command loop of a connection. The lines of the connection are the input, and what
-- the loop prints is its output; the times that it prints are left out.
pub mod Text
pub mod Steps
pub mod AutoCommit
use ryu_db.Base.{ℕ, Bool, true, false, List, [], ◌∷◌, ◌++◌, Bytes, Option, none, some}
use ryu_db.Base.{Error, if◌then◌else◌}
use ryu_db.Bytes.Order.{bytes_eq}
use ryu_db.Txn.{begin}
use ryu_db.Engine.{
  Db, Index, Read, read_value, unread, set, get, delete, rollback, commit, is_conflict_error,
}
use Text.{trim_space, first_field, to_upper, cut}

-- `ClientState` without its connection.
pub record Client : Type 0 where
  pub in_tx : Bool
  pub tx_id : ℕ

abbrev pub new_client_state : Client
new_client_state = record { in_tx = false; tx_id = 0 }

pub record Session (S : Type 0) : Type 0 where
  pub client : Client
  pub db : Db S

pub data Reply : Type 0 where
  done nested_begin commit_without_begin rollback_without_begin goodbye aborted unknown : Reply
  usage : Reply
  failed : Error → Reply
  found : Bytes → Reply

pub data Command : Type 0 where
  cmd_begin cmd_commit cmd_rollback cmd_quit cmd_other : Command

abbrev word_begin : Bytes
word_begin = 66 ∷ 69 ∷ 71 ∷ 73 ∷ 78 ∷ []

abbrev word_commit : Bytes
word_commit = 67 ∷ 79 ∷ 77 ∷ 77 ∷ 73 ∷ 84 ∷ []

abbrev word_rollback : Bytes
word_rollback = 82 ∷ 79 ∷ 76 ∷ 76 ∷ 66 ∷ 65 ∷ 67 ∷ 75 ∷ []

abbrev word_quit : Bytes
word_quit = 81 ∷ 85 ∷ 73 ∷ 84 ∷ []

abbrev word_exit : Bytes
word_exit = 69 ∷ 88 ∷ 73 ∷ 84 ∷ []

abbrev pub word_set : Bytes
word_set = 83 ∷ 69 ∷ 84 ∷ []

abbrev pub word_get : Bytes
word_get = 71 ∷ 69 ∷ 84 ∷ []

abbrev pub word_delete : Bytes
word_delete = 68 ∷ 69 ∷ 76 ∷ 69 ∷ 84 ∷ 69 ∷ []

-- The switch of handleConnection on the first word.
unfoldable pub command_of : Bytes → Command
unfolding first_field to_upper
command_of text =
    let word = to_upper (first_field text) in
    if bytes_eq word word_begin
    then cmd_begin
    else if bytes_eq word word_commit
    then cmd_commit
    else if bytes_eq word word_rollback
    then cmd_rollback
    else if bytes_eq word word_quit
    then cmd_quit
    else if bytes_eq word word_exit
    then cmd_quit
    else cmd_other

-- What executeCommand leaves: the database, what it printed, and its error.
abbrev pub Ran : Type 0 → Type 0
Ran S = Db S × List Reply × Option Error

-- The print behind Set and Delete.
abbrev pub report : {S : Type 0} → Db S × Option Error → Ran S
report (db, none) = (db, done ∷ [], none)
report (db, some e) = (db, failed e ∷ [], some e)

-- The print behind Get.
abbrev pub report_value : {S : Type 0} → Db S × Read → Ran S
report_value (db, read_value bytes) = (db, found bytes ∷ [], none)
report_value (db, unread e) = (db, failed e ∷ [], some e)

-- `SplitN(line, " ", 3)` behind its first part.
abbrev pub Arguments : Type 0
Arguments = Option (Bytes × Option Bytes)

abbrev pub arguments : Option Bytes → Arguments
arguments none = none
arguments (some rest) = some (cut rest)

module _ {S : Type 0} (ix : Index S) where
  abbrev pub run_set : ℕ → Arguments → Db S → Ran S
  run_set tx_id (some (key, some value)) db = report (set ix tx_id key value db)
  run_set tx_id (some (key, none)) db = (db, usage ∷ [], none)
  run_set tx_id none db = (db, usage ∷ [], none)

  abbrev pub run_get : ℕ → Arguments → Db S → Ran S
  run_get tx_id (some (key, _)) db = report_value (get ix tx_id key db)
  run_get tx_id none db = (db, usage ∷ [], none)

  abbrev pub run_delete : ℕ → Arguments → Db S → Ran S
  run_delete tx_id (some (key, _)) db = report (delete ix tx_id key db)
  run_delete tx_id none db = (db, usage ∷ [], none)

  unfoldable pub execute_command : ℕ → Bytes → Db S → Ran S
  unfolding cut to_upper
  execute_command tx_id line db =
      let (word, rest) = cut line in
      let command = to_upper word in
      if bytes_eq command word_set
      then run_set tx_id (arguments rest) db
      else if bytes_eq command word_get
      then run_get tx_id (arguments rest) db
      else if bytes_eq command word_delete
      then run_delete tx_id (arguments rest) db
      else (db, unknown ∷ [], none)

  -- What a line leaves: the session, what it printed, and whether the connection goes on.
  abbrev pub Handled : Type 0
  Handled = Session S × List Reply × Bool

  -- `now` is the id that the clock gives a transaction that the line begins.
  abbrev pub handle_begin : ℕ → Session S → Handled
  handle_begin now s =
      if s.client.in_tx
      then (s, nested_begin ∷ [], true)
      else let (tx_id, tx_mgr) = begin now s.db.tx_mgr in
        (
          record {
            client = record { in_tx = true; tx_id = tx_id };
            db = record { index = s.db.index; tx_mgr = tx_mgr };
          },
          done ∷ [],
          true,
        )

  -- The error of a Commit or a Rollback is dropped.
  abbrev pub handle_commit : Session S → Handled
  handle_commit s =
      if s.client.in_tx
      then (
        record {
          client = record { in_tx = false; tx_id = s.client.tx_id };
          db = (commit ix s.client.tx_id s.db).0;
        },
        done ∷ [],
        true,
      )
      else (s, commit_without_begin ∷ [], true)

  abbrev pub handle_rollback : Session S → Handled
  handle_rollback s =
      if s.client.in_tx
      then (
        record {
          client = record { in_tx = false; tx_id = s.client.tx_id };
          db = (rollback ix s.client.tx_id s.db).0;
        },
        done ∷ [],
        true,
      )
      else (s, rollback_without_begin ∷ [], true)

  -- A conflict inside a transaction ends it.
  abbrev pub after_command : Client → Ran S → Handled
  after_command client (db, replies, e) =
      if is_conflict_error e
      then (
        record { client = record { in_tx = false; tx_id = client.tx_id }; db = db },
        replies ++ aborted ∷ [],
        true,
      )
      else (record { client = client; db = db }, replies, true)

  -- Auto-commit: only a command without an error is committed.
  abbrev pub auto_commit : ℕ → Client → Ran S → Handled
  auto_commit tx_id client (db, replies, none) =
      (record { client = client; db = (commit ix tx_id db).0 }, replies, true)
  auto_commit tx_id client (db, replies, some e) =
      (record { client = client; db = db }, replies, true)

  abbrev pub handle_other : ℕ → Bytes → Session S → Handled
  handle_other now text s =
      if s.client.in_tx
      then after_command s.client (execute_command s.client.tx_id text s.db)
      else let (tx_id, tx_mgr) = begin now s.db.tx_mgr in
        auto_commit tx_id s.client
          (execute_command tx_id text (record { index = s.db.index; tx_mgr = tx_mgr }))

  abbrev pub run_command : Command → ℕ → Bytes → Session S → Handled
  run_command cmd_begin now text s = handle_begin now s
  run_command cmd_commit now text s = handle_commit s
  run_command cmd_rollback now text s = handle_rollback s
  run_command cmd_quit now text s = (s, goodbye ∷ [], false)
  run_command cmd_other now text s = handle_other now text s

  abbrev pub handle_text : ℕ → Bytes → Session S → Handled
  handle_text now [] s = (s, [], true)
  handle_text now (b ∷ bs) s = run_command (command_of (b ∷ bs)) now (b ∷ bs) s

  unfoldable pub handle_line : ℕ → Bytes → Session S → Handled
  unfolding trim_space command_of execute_command
  handle_line now line s = handle_text now (trim_space line) s

  -- The deferred call: a transaction that is open when the connection ends is rolled back.
  unfoldable pub disconnect : Session S → Db S
  disconnect s = if s.client.in_tx then (rollback ix s.client.tx_id s.db).0 else s.db

  -- The lines of a connection, each with the id that the clock would give.
  unfoldable pub handle_lines : List (ℕ × Bytes) → Session S → Session S × List Reply
  unfolding handle_line
  handle_lines [] s = (s, [])
  handle_lines ((now, line) ∷ lines) s =
      let (next, replies, on) = handle_line now line s in
      let (end, more) = handle_lines lines next in
      if on then (end, replies ++ more) else (next, replies)

  unfoldable pub handle_connection : List (ℕ × Bytes) → Db S → Db S × List Reply
  unfolding handle_lines disconnect
  handle_connection lines db =
      let (s, replies) = handle_lines lines (record { client = new_client_state; db = db }) in
      (disconnect s, replies)
