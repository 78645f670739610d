-- ===== src/Recovery/Analysis.antt =====
-- The analysis pass: it reads the log to its end, and finds the transactions that have not ended.
use ryu_db.Base.{ℕ, ◌≡◌, ◌≢◌, refl, sym, ap, arith, List, [], ◌∷◌, Option, none, some}
use ryu_db.Base.{Bytes, ◌==◌, if◌then◌else◌, ok, ok-bind}
use ryu_db.Base.Table.{Table, lookup, lookup-insert, lookup-remove}
use ryu_db.Wal.{Wal, LogRecord}
use ryu_db.Recovery.{analyse_att, analyse_dpt, analyse, Tables, ends}

-- What the last record of a transaction says of it, if it has one: that it has ended, or its LSN.
abbrev pub standing : ℕ → List LogRecord → Option (Option ℕ)
standing txn [] = none
standing txn (rec ∷ recs) =
    let later = standing txn recs in
    elim later [
      | some s ↦ some s
      | none ↦
          if rec.txn_id == txn
          then (if ends rec.op_type then some none else some (some rec.lsn))
          else none
    ]

-- What the analysis makes of the active transactions.
abbrev pub analyse_all : List LogRecord → Table ℕ → Table ℕ
analyse_all [] att = att
analyse_all (rec ∷ recs) att = analyse_all recs (analyse_att rec att)

abbrev pub active : Option (Option ℕ) → Option ℕ → Option ℕ
active none before = before
active (some s) before = s

analyse_all_lem :
    (recs : List LogRecord) (att : Table ℕ) (txn : ℕ)
    → txn ≢ 0
    → lookup txn (analyse_all recs att) ≡ active (standing txn recs) (lookup txn att)
unfolding lookup
analyse_all_lem [] att txn real = refl
analyse_all_lem (rec ∷ recs) att txn real = ground (
  arith,
  analyse_all_lem recs (analyse_att rec att) txn real,
  lookup-insert rec.txn_id txn rec.lsn att,
  lookup-remove rec.txn_id txn att,
)

analyse-analyse_all :
    (recs : List LogRecord) (t t' : Tables)
    → analyse recs t ≡ ok t'
    → t'.att ≡ analyse_all recs t.att
unfolding analyse
analyse-analyse_all [] t t' e = let same : t ≡ t' = cc e in ap (λ (k : Tables). k.att) (sym same)
analyse-analyse_all (rec ∷ recs) t t' e =
    let (dpt, _, e') = ok-bind (analyse_dpt rec t.dpt) _ t' e in
    analyse-analyse_all recs (record { dpt = dpt; att = analyse_att rec t.att }) t' e'

-- Where the analysis of a list of records ends well, a transaction with an id that is not 0 is active
-- if it has a record and its last one is neither a commit nor an abort, with the LSN of that record.
pub analyse-active :
    (recs : List LogRecord) (t : Tables) (txn : ℕ)
    → txn ≢ 0
    → analyse recs (record { dpt = []; att = [] }) ≡ ok t
    → lookup txn t.att ≡ active (standing txn recs) none
unfolding lookup
analyse-active recs t txn real e =
    rw (analyse-analyse_all recs (record { dpt = []; att = [] }) t e)
      (analyse_all_lem recs [] txn real)
