-- ===== src/Recovery/Redo.antt =====
-- The redo pass on a page.
use ryu_db.Base.{
  ◌^◌, ◌≤◌, ◌<◌, ◌≡◌, ◌≢◌, refl, sym, ap, ◌∙◌, arith, true, false, Bool-cases, inl, inr,
}
use ryu_db.Base.{length, ok, ◌>>=◌, ok-bind}
use ryu_db.Page.{Page, get_lsn, set_lsn}
use ryu_db.Page.Fields.{read_field-put_field, size_put_field}
use ryu_db.Page.Checksum.{put_field-put_field}
use ryu_db.Wal.{LogRecord, log_op_clr, log_op_insert}
use ryu_db.Leaf.Redo.{redo_upsert_on_page}
use ryu_db.Recovery.{apply_record, is_applied, redo_page}

-- Redo does nothing the second time: where redoing a record with an LSN of 64 bits that is not 0 comes
-- to a page of at least 20 bytes, redoing it on that page comes to the same page.
pub redo_page_again :
    (rec : LogRecord) (p q : Page)
    → rec.lsn ≢ 0
    → rec.lsn < 2 ^ 64
    → redo_page rec p ≡ ok q
    → 20 ≤ length q.bytes
    → redo_page rec q ≡ ok q
unfolding redo_page
redo_page_again rec p q real small e size = elim (Bool-cases (is_applied rec p)) [
  | inl done ↦
      let same : p ≡ q = cc (rw done at e) in
      let again : is_applied rec q ≡ true = ap (is_applied rec) (sym same) ∙ done in rw again refl
  | inr new ↦
      let (r, applied, e') = ok-bind (apply_record rec p) _ q (rw new at e) in
      let same : set_lsn rec.lsn r ≡ q = cc e' in
      let n : length (set_lsn rec.lsn r).bytes ≡ length r.bytes = size_put_field 12 8 rec.lsn r in
      let at_lsn : get_lsn (set_lsn rec.lsn r) ≡ rec.lsn =
        read_field-put_field 12 8 rec.lsn r
          (omega (arith, size, n, ap (λ (k : Page). length k.bytes) same)) (omega (arith, small)) in
      let lsn : get_lsn q ≡ rec.lsn = ap get_lsn (sym same) ∙ at_lsn in
      let again : is_applied rec q ≡ true = ground (arith, lsn, real) in rw again refl
]

-- A compensation record is not redone. Where an insert, with an LSN of 64 bits above the page's, is
-- followed by its compensation with a greater LSN, and redoing the insert's cell comes to a page of at
-- least 20 bytes, redoing both records comes to that page with the LSN of the second, so the insert
-- stays.
pub redo_page_clr :
    (ins clr : LogRecord) (p q : Page)
    → ins.op_type ≡ log_op_insert
    → clr.op_type ≡ log_op_clr
    → get_lsn p < ins.lsn
    → ins.lsn < clr.lsn
    → ins.lsn < 2 ^ 64
    → redo_upsert_on_page ins.key ins.value log_op_insert p ≡ ok q
    → 20 ≤ length q.bytes
    → (redo_page ins p >>= redo_page clr) ≡ ok (set_lsn clr.lsn q)
unfolding redo_page
redo_page_clr ins clr p q is_insert is_clr older later small redone size =
    let first : is_applied ins p ≡ false = ground (arith, older) in
    let lsn : get_lsn (set_lsn ins.lsn q) ≡ ins.lsn =
      read_field-put_field 12 8 ins.lsn q size (omega (arith, small)) in
    let second : is_applied clr (set_lsn ins.lsn q) ≡ false = ground (arith, lsn, later) in
    rw (first, is_insert, redone, second, is_clr)
      (ap ok (put_field-put_field 12 8 ins.lsn clr.lsn q))
