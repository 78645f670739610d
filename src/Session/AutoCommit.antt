-- ===== src/Session/AutoCommit.antt =====
-- A command outside a transaction, in a transaction of its own.
use ryu_db.Base.{ℕ, ◌≡◌, refl, ap, ◌∙◌, arith, Bool, true, false, ◌∷◌, Bytes, Bool-cases, inl, inr}
use ryu_db.Base.{none, some, Error}
use ryu_db.Bytes.Order.{bytes_eq}
use ryu_db.Txn.{begin, commited, is_running, get_status}
use ryu_db.Engine.{
  Db, Outcome, Index, IsIndex, is_conflict_error, abort_on_conflict, set, delete, commit,
}
use ryu_db.Session.{
  Client, Session, Ran, Arguments, arguments, report, run_set, run_delete, word_set, word_get,
  word_delete, execute_command, auto_commit, handle_line, command_of, cmd_other,
}
use ryu_db.Session.Text.{trim_space, cut, to_upper}
use ryu_db.Session.Steps.{runs, begin_status, RanWell, execute_command_lem}

-- The database that a command outside a transaction starts from.
abbrev pub begun : {S : Type 0} → ℕ → Session S → Db S
begun now s = record { index = s.db.index; tx_mgr = (begin now s.db.tx_mgr).1 }

abbrev pub is_get : Bytes → Bool
is_get text = bytes_eq (to_upper (cut text).0) word_get

module _ {S : Type 0} (ix : Index S) (laws : IsIndex ix) where
  -- A conflict ended the transaction.
  abbrev ConflictEnds : ℕ → Ran S → Type 0
  ConflictEnds tx_id (after, _, e) = is_conflict_error e ≡ true → runs after tx_id ≡ false

  report-ConflictEnds :
      (tx_id : ℕ) (o : Outcome S) → ConflictEnds tx_id (report (abort_on_conflict ix tx_id o))
  report-ConflictEnds tx_id (after, none) = λ h. ground (arith, h)
  report-ConflictEnds tx_id (after, some e) = elim (Bool-cases (is_conflict_error (some e))) [
    | inl met ↦ rw met (λ h. laws.rollback_status tx_id after)
    | inr none_met ↦ rw none_met (λ h. ground (arith, none_met))
  ]

  run_set-ConflictEnds :
      (tx_id : ℕ) (a : Arguments) (db : Db S) → ConflictEnds tx_id (run_set ix tx_id a db)
  unfolding set
  run_set-ConflictEnds tx_id (some (key, some v)) db = report-ConflictEnds tx_id _
  run_set-ConflictEnds tx_id (some (key, none)) db = λ h. ground (arith, h)
  run_set-ConflictEnds tx_id none db = λ h. ground (arith, h)

  run_delete-ConflictEnds :
      (tx_id : ℕ) (a : Arguments) (db : Db S) → ConflictEnds tx_id (run_delete ix tx_id a db)
  unfolding delete
  run_delete-ConflictEnds tx_id (some (key, _)) db = report-ConflictEnds tx_id _
  run_delete-ConflictEnds tx_id none db = λ h. ground (arith, h)

  execute_command-ConflictEnds :
      (tx_id : ℕ) (line : Bytes) (db : Db S)
      → is_get line ≡ false
      → ConflictEnds tx_id (execute_command ix tx_id line db)
  unfolding execute_command
  execute_command-ConflictEnds tx_id line db other =
      let (word, rest) = cut line in
      let command = to_upper word in
      elim (Bool-cases (bytes_eq command word_set)) [
        | inl is_set ↦ rw is_set (run_set-ConflictEnds tx_id (arguments rest) db)
        | inr not_set ↦ elim (Bool-cases (bytes_eq command word_delete)) [
          | inl is_delete ↦
              rw (not_set, other, is_delete) (run_delete-ConflictEnds tx_id (arguments rest) db)
          | inr not_delete ↦ rw (not_set, other, not_delete) (λ h. ground (arith, h))
        ]
      ]

  -- What a transaction of one command has come to, by how the command ended.
  abbrev pub Ended : ℕ → Bytes → Ran S → Db S → Type 0
  Ended tx_id text r after =
      (r.2 ≡ none → (commit ix tx_id r.0).1 ≡ none → get_status after.tx_mgr tx_id ≡ commited)
      × ((x : Error) → r.2 ≡ some x → is_conflict_error r.2 ≡ false → runs after tx_id ≡ true)
      × (is_get text ≡ false → is_conflict_error r.2 ≡ true → runs after tx_id ≡ false)

  auto_commit_lem :
      (tx_id : ℕ) (text : Bytes) (client : Client) (start : Db S) (r : Ran S)
      → RanWell ix laws tx_id start r
      → (is_get text ≡ false → ConflictEnds tx_id r)
      → runs start tx_id ≡ true
      → Ended tx_id text r (auto_commit ix tx_id client r).0.db
  unfolding commit
  auto_commit_lem tx_id text client start (db, replies, none) h k live = (
    (λ e committed. laws.commit_status tx_id db committed),
    (λ x e. ground arith),
    λ other met. ground (arith, met),
  )
  auto_commit_lem tx_id text client start (db, replies, some x) h k live = (
    (λ e. ground arith),
    (λ y e none_met. ap is_running (h none_met tx_id) ∙ live),
    λ other met. k other met,
  )

  handle_line-auto_commit :
      (now : ℕ) (line : Bytes) (b : ℕ) (bs : Bytes) (s : Session S)
      → s.client.in_tx ≡ false
      → trim_space line ≡ b ∷ bs
      → command_of (b ∷ bs) ≡ cmd_other
      → handle_line ix now line s
        ≡ auto_commit ix
            (begin now s.db.tx_mgr).0
            s.client
            (execute_command ix (begin now s.db.tx_mgr).0 (b ∷ bs) (begun now s))
  unfolding handle_line
  handle_line-auto_commit now line b bs s closed text other = rw (text, other, closed) refl

  -- Outside a transaction, a line with a command runs in a transaction of its own. Where the command
  -- ends without an error and the commit behind it too, that transaction is committed; with an error
  -- that is no conflict it is left running; and with a conflict, of another command than `get`, it is
  -- not running afterwards.
  pub auto_commit_outcome :
      (now : ℕ) (line : Bytes) (b : ℕ) (bs : Bytes) (s : Session S)
      → s.client.in_tx ≡ false
      → trim_space line ≡ b ∷ bs
      → command_of (b ∷ bs) ≡ cmd_other
      → let tx_id = (begin now s.db.tx_mgr).0 in
        Ended tx_id
          (b ∷ bs)
          (execute_command ix tx_id (b ∷ bs) (begun now s))
          (handle_line ix now line s).0.db
  auto_commit_outcome now line b bs s closed text other =
      let tx_id = (begin now s.db.tx_mgr).0 in
      rw (handle_line-auto_commit now line b bs s closed text other) (
        auto_commit_lem tx_id (b ∷ bs) s.client (begun now s) _
          (execute_command_lem ix laws tx_id (b ∷ bs) (begun now s))
          (execute_command-ConflictEnds tx_id (b ∷ bs) (begun now s))
          (ap is_running (begin_status now s.db.tx_mgr)))
