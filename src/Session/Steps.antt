-- ===== src/Session/Steps.antt =====
-- The statuses of the transactions that a session begins.
use ryu_db.Base.{
  both_branches, ℕ, ◌≡◌, refl, ap, ◌∙◌, arith, Bool, true, false, List, [], ◌∷◌, Bytes,
}
use ryu_db.Base.{none, some, Bool-cases, inl, inr}
use ryu_db.Base.Table.{lookup-insert}
use ryu_db.Txn.{TransactionManager, begin, running, is_running, get_status}
use ryu_db.Engine.{
  Db, Outcome, Index, IsIndex, Read, read_value, unread, is_conflict_error, abort_on_conflict, set,
  get, delete, rollback,
}
use ryu_db.Session.{
  Client, new_client_state, Session, Ran, Arguments, report, report_value, run_set, run_get,
  run_delete, execute_command, arguments, word_set, word_get, word_delete, Handled, after_command,
  auto_commit, run_command, handle_text, handle_line, disconnect, handle_lines, handle_connection,
  command_of, cmd_begin, cmd_commit, cmd_rollback, cmd_quit, cmd_other, Command,
}
use ryu_db.Session.Text.{trim_space, cut, to_upper}
use ryu_db.Txn.Key.{build_mvcc_key}
use ryu_db.Bytes.Order.{bytes_eq}

abbrev pub runs : {S : Type 0} → Db S → ℕ → Bool
runs db t = is_running (get_status db.tx_mgr t)

-- An open transaction is running.
abbrev pub IsOpen : {S : Type 0} → Session S → Type 0
IsOpen s = s.client.in_tx ≡ true → runs s.db s.client.tx_id ≡ true

pub begin_status :
    (now : ℕ) (m : TransactionManager) → get_status (begin now m).1 (begin now m).0 ≡ running
unfolding begin get_status
begin_status now m = ground (arith, lookup-insert now now running m.txn_table)

module _ {S : Type 0} (ix : Index S) (laws : IsIndex ix) where
  -- Anything but a conflict left every status alone.
  abbrev pub RanWell : ℕ → Db S → Ran S → Type 0
  RanWell tx_id db (after, _, e) =
      is_conflict_error e ≡ false → (t : ℕ) → get_status after.tx_mgr t ≡ get_status db.tx_mgr t

  report-abort_on_conflict :
      (tx_id : ℕ) (db : Db S) (o : Outcome S)
      → ((t : ℕ) → get_status o.0.tx_mgr t ≡ get_status db.tx_mgr t)
      → RanWell tx_id db (report (abort_on_conflict ix tx_id o))
  report-abort_on_conflict tx_id db (after, none) same = λ h. same
  report-abort_on_conflict tx_id db (after, some e) same =
      elim (Bool-cases (is_conflict_error (some e))) [
        | inl met ↦ rw met (λ h. ground (arith, met))
        | inr none_met ↦ rw none_met (λ h. same)
      ]

  report-value :
      (tx_id : ℕ) (db : Db S) (o : Db S × Read)
      → ((t : ℕ) → get_status o.0.tx_mgr t ≡ get_status db.tx_mgr t)
      → RanWell tx_id db (report_value o)
  report-value tx_id db (after, read_value v) same = λ h. same
  report-value tx_id db (after, unread e) same = λ h. same

  run_set_lem : (tx_id : ℕ) (a : Arguments) (db : Db S) → RanWell tx_id db (run_set ix tx_id a db)
  unfolding set
  run_set_lem tx_id (some (key, some v)) db =
      report-abort_on_conflict tx_id db _ (laws.insert_status (build_mvcc_key key tx_id) v db)
  run_set_lem tx_id (some (key, none)) db = λ h t. refl
  run_set_lem tx_id none db = λ h t. refl

  run_get_lem : (tx_id : ℕ) (a : Arguments) (db : Db S) → RanWell tx_id db (run_get ix tx_id a db)
  unfolding get
  run_get_lem tx_id (some (key, _)) db =
      report-value tx_id db _ (laws.find_latest_status (build_mvcc_key key tx_id) db)
  run_get_lem tx_id none db = λ h t. refl

  run_delete_lem :
      (tx_id : ℕ) (a : Arguments) (db : Db S) → RanWell tx_id db (run_delete ix tx_id a db)
  unfolding delete
  run_delete_lem tx_id (some (key, _)) db =
      report-abort_on_conflict tx_id db _ (laws.delete_status (build_mvcc_key key tx_id) db)
  run_delete_lem tx_id none db = λ h t. refl

  -- A command that meets no conflict leaves every status alone.
  pub execute_command_lem :
      (tx_id : ℕ) (line : Bytes) (db : Db S) → RanWell tx_id db (execute_command ix tx_id line db)
  unfolding execute_command
  execute_command_lem tx_id line db =
      let (word, rest) = cut line in
      let command = to_upper word in
      elim (Bool-cases (bytes_eq command word_set)) [
        | inl is_set ↦ rw is_set (run_set_lem tx_id (arguments rest) db)
        | inr not_set ↦ elim (Bool-cases (bytes_eq command word_get)) [
          | inl is_get ↦ rw (not_set, is_get) (run_get_lem tx_id (arguments rest) db)
          | inr not_get ↦ elim (Bool-cases (bytes_eq command word_delete)) [
            | inl is_delete ↦
                rw (not_set, not_get, is_delete) (run_delete_lem tx_id (arguments rest) db)
            | inr not_delete ↦ rw (not_set, not_get, not_delete) (λ h t. refl)
          ]
        ]
      ]

  -- The session behind a line keeps an open transaction running.
  abbrev OpenAfter : Handled ix → Type 0
  OpenAfter (s, _, _) = IsOpen s

  after_command-IsOpen :
      (client : Client) (db : Db S) (r : Ran S)
      → runs db client.tx_id ≡ true
      → RanWell client.tx_id db r
      → OpenAfter (after_command ix client r)
  after_command-IsOpen client db (after, replies, e) live h =
      elim (Bool-cases (is_conflict_error e)) [
        | inl met ↦ rw met (λ in_tx. ground (arith, met))
        | inr none_met ↦ rw none_met (λ in_tx. ap is_running (h none_met client.tx_id) ∙ live)
      ]

  closed-auto_commit :
      (tx_id : ℕ) (client : Client) (r : Ran S)
      → client.in_tx ≡ false
      → OpenAfter (auto_commit ix tx_id client r)
  closed-auto_commit tx_id client (db, replies, none) h = λ in_tx. ground (arith, h)
  closed-auto_commit tx_id client (db, replies, some e) h = λ in_tx. ground (arith, h)

  run_command-IsOpen :
      (c : Command) (now : ℕ) (text : Bytes) (s : Session S)
      → IsOpen s
      → OpenAfter (run_command ix c now text s)
  run_command-IsOpen cmd_begin now text s h =
      both_branches OpenAfter s.client.in_tx _ _ (λ in_tx. h)
        (λ closed _. ap is_running (begin_status now s.db.tx_mgr))
  run_command-IsOpen cmd_commit now text s h =
      both_branches OpenAfter s.client.in_tx _ _ (λ in_tx e. ground arith) (λ closed. h)
  run_command-IsOpen cmd_rollback now text s h =
      both_branches OpenAfter s.client.in_tx _ _ (λ in_tx e. ground arith) (λ closed. h)
  run_command-IsOpen cmd_quit now text s h = h
  run_command-IsOpen cmd_other now text s h =
      both_branches OpenAfter s.client.in_tx _ _
        (λ in_tx.
          after_command-IsOpen s.client s.db _ (h in_tx)
            (execute_command_lem s.client.tx_id text s.db))
        (λ closed. closed-auto_commit _ s.client _ closed)

  handle_text-IsOpen :
      (now : ℕ) (text : Bytes) (s : Session S) → IsOpen s → OpenAfter (handle_text ix now text s)
  handle_text-IsOpen now [] s h = h
  handle_text-IsOpen now (b ∷ bs) s h = run_command-IsOpen (command_of (b ∷ bs)) now (b ∷ bs) s h

  -- Every line of a connection, whatever it says, leaves the transaction that the client has open
  -- running, if it was so before.
  pub handle_line-IsOpen :
      (now : ℕ) (line : Bytes) (s : Session S) → IsOpen s → IsOpen (handle_line ix now line s).0
  unfolding handle_line
  handle_line-IsOpen now line s h = handle_text-IsOpen now (trim_space line) s h

  pub handle_lines-IsOpen :
      (lines : List (ℕ × Bytes)) (s : Session S) → IsOpen s → IsOpen (handle_lines ix lines s).0
  unfolding handle_lines
  handle_lines-IsOpen [] s h = h
  handle_lines-IsOpen ((now, line) ∷ lines) s h =
      let next = handle_line ix now line s in
      let here = handle_line-IsOpen now line s h in
      elim (Bool-cases next.2) [
        | inl on ↦ rw on (handle_lines-IsOpen lines next.0 here)
        | inr off ↦ rw off here
      ]

  -- Where a connection ends with its transaction open, the transaction was running up to the end,
  -- and the rollback of the end leaves it not running.
  pub handle_connection_rolls_back :
      (lines : List (ℕ × Bytes)) (db : Db S)
      → let (s, _) = handle_lines ix lines (record { client = new_client_state; db = db }) in
        s.client.in_tx ≡ true
        → (runs s.db s.client.tx_id ≡ true)
          × (runs (handle_connection ix lines db).0 s.client.tx_id ≡ false)
  unfolding handle_connection disconnect rollback
  handle_connection_rolls_back lines db in_tx =
      let start : Session S = record { client = new_client_state; db = db } in
      let s = (handle_lines ix lines start).0 in
      (
        handle_lines-IsOpen lines start (λ e. ground arith) in_tx,
        rw in_tx (laws.rollback_status s.client.tx_id s.db),
      )
