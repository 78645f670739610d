-- ===== src/Tree/Pages.antt =====
-- The calls of the buffer manager that the tree makes.
use ryu_db.Base.{ℕ, Bool, [], Option, none, some, Result, ok}
use ryu_db.Base.State.{Op, ignore}
use ryu_db.Page.{Page, set_lsn}
use ryu_db.Wal.{Wal, log_op_full_page}
use ryu_db.Buffer.{BufferManager, append_log, store_page, unpin_page}

abbrev pub Pages : Type 0 → Type 0
Pages A = Op BufferManager A

abbrev pub return {ℓ} : {A : Type ℓ} → A → Op BufferManager A
return a b = (ok a, b)

abbrev pub raise {ℓ} : {A : Type ℓ} → Result A → Op BufferManager A
raise r b = (r, b)

-- A change through the page that was fetched.
abbrev pub store : ℕ → Page → Pages (Unit {0})
store page_id p b = (ok tt, store_page page_id p b)

-- UnpinPage where its error is not looked at.
abbrev pub unpin : ℕ → Bool → Pages (Unit {0})
unpin page_id is_dirty b = ignore (unpin_page page_id is_dirty b)

-- `defer`: the second runs behind the first, whatever the outcome.
abbrev pub deferring {ℓ} : {A : Type ℓ} → Op BufferManager A → Pages (Unit {0}) → Op BufferManager A
deferring m last b = let (r, b') = m b in (r, (last b').1)

-- The LSN of an Append whose error is not looked at.
abbrev pub lsn_or_zero : Option ℕ → ℕ
lsn_or_zero (some lsn) = lsn
lsn_or_zero none = 0

abbrev pub log_with : Option Wal → ℕ → Page → Pages Page
log_with none page_id p b = (ok p, b)
log_with (some w) page_id p b =
    let (lsn, b') = append_log 0 page_id 0 log_op_full_page [] p.bytes w b in
    (ok (set_lsn (lsn_or_zero lsn) p), b')

-- `if tree.wal != nil { lsn, _ := tree.wal.Append(...); page.SetLSN(lsn) }` with the whole page.
unfoldable pub log_full_page : ℕ → Page → Pages Page
unfolding append_log
log_full_page page_id p b = log_with b.wal page_id p b
