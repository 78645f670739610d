-- ===== src/Tree/FreeStack.antt =====
-- The free pages as a stack of page ids, and what deallocatePage makes of it.
use mathlib.Core.Path.{subst}
use ryu_db.Base.{
  ℕ, suc, ◌<◌, ◌^◌, ◌≡◌, ◌≢◌, refl, sym, ap, ◌∙◌, arith, true, false, inl, inr, Option, some, List,
  [], ◌∷◌, length, ◌==◌, ==_iff,
}
use ryu_db.Base.State.{Op, and_then, Ends, Ends-and_then, Ends-imp, ended}
use ryu_db.Page.{
  Page, init, get_page_id, meta_page_id, page_type_meta, page_type_free, get_first_free_page_id,
  set_first_free_page_id, get_next_free_page_id, set_next_free_page_id, get_root_page_id,
}
use ryu_db.Page.Fields.{size_put_field, read_field-put_field, read_field-put_field_ne}
use ryu_db.Buffer.{BufferManager, fetch_page_for_write}
use ryu_db.Buffer.View.{content, view}
use ryu_db.Buffer.Pins.{count, IsUsing}
use ryu_db.Buffer.Use.{Holding}
use ryu_db.Buffer.Hold.{fetch_page_for_write-Holding}
use ryu_db.Tree.Pages.{Pages, store, unpin, deferring}
use ryu_db.Tree.Held.{store-Stored, unpin-LetGo}
use ryu_db.Tree.Content.{content-field}
use ryu_db.Tree.Upsert.{content-page_id}
use ryu_db.Tree.FreeList.{push_free, deallocate_page}

-- From `head` on the free pages are those of the list; each holds its own id and that of the next.
abbrev pub IsFree : (ℕ → Option Page) → ℕ → List ℕ → Type 0
IsFree v head [] = head ≡ 0
IsFree v head (x ∷ xs) =
    (head ≡ x)
    × (x ≢ 0)
    × (x < 2 ^ 32)
    × (count x xs ≡ 0)
    × ((p : Page) × (v x ≡ some p) × (get_page_id p ≡ x) × IsFree v (get_next_free_page_id p) xs)

-- The meta page holds the root's id and the top of the stack.
pub record FreeStack (v : ℕ → Option Page) (root : ℕ) (ids : List ℕ) : Type 0 where
  pub meta : Page
  pub shown : v 0 ≡ some meta
  pub root_id : get_root_page_id meta ≡ root
  pub free : IsFree v (get_first_free_page_id meta) ids

-- Pages that are not on the stack do not matter to it.
pub IsFree-view :
    (v w : ℕ → Option Page) (head : ℕ) (ids : List ℕ)
    → IsFree v head ids
    → ((j : ℕ) → j ≢ 0 → count j ids ≢ 0 → w j ≡ v j)
    → IsFree w head ids
IsFree-view v w head [] h same = h
IsFree-view v w head (x ∷ xs) (top, real, small, once, (p, shown, own, rest)) same = (
  top,
  real,
  small,
  once,
  (
    p,
    same x real (ground arith) ∙ shown,
    own,
    IsFree-view v w (get_next_free_page_id p) xs rest λ j ne on. same j ne (omega (arith, on)),
  ),
)

pub FreeStack-view :
    (v w : ℕ → Option Page) (root : ℕ) (ids : List ℕ)
    → FreeStack v root ids
    → ((j : ℕ) → w j ≡ v j)
    → FreeStack w root ids
FreeStack-view v w root ids st same = record {
  meta = st.meta;
  shown = same 0 ∙ st.shown;
  root_id = st.root_id;
  free = IsFree-view v w (get_first_free_page_id st.meta) ids st.free λ j nz on. same j;
}

pub IsFree-small :
    (v : ℕ → Option Page) (head : ℕ) (ids : List ℕ) → IsFree v head ids → head < 2 ^ 32
IsFree-small v head [] h = omega (arith, h)
IsFree-small v head (x ∷ xs) h = omega (arith, h.0, h.2)

pub init-page_id : (mode : ℕ) (p : Page) → get_page_id (init mode p) ≡ get_page_id p
unfolding init
init-page_id mode p =
    read_field-put_field_ne 20 1 mode _ 8 4 (inl (omega arith))
    ∙ read_field-put_field_ne 12 8 0 _ 8 4 (inl (omega arith))
    ∙ read_field-put_field_ne 21 2 0 _ 8 4 (inl (omega arith))
    ∙ read_field-put_field_ne 23 2 4096 _ 8 4 (inl (omega arith))
    ∙ read_field-put_field_ne 0 4 3669015125 p 8 4 (inr (omega arith))

pub length-init : (mode : ℕ) (p : Page) → length (init mode p).bytes ≡ length p.bytes
unfolding init
length-init mode p = omega (arith, size_put_field)

pub Holding-size :
    {limit id : ℕ} {held : List ℕ} {b b' : BufferManager} {c p : Page}
    → Holding limit held id b c p b'
    → length p.bytes ≡ 4096
Holding-size {id = id} h =
    ap (λ (k : Page). length k.bytes) (sym h.is_page)
    ∙ (h.use_more.pool.frames id h.frame h.found).size

pub Ends-deferring :
    {A : Type 0} {P Q : A → BufferManager → Type 0} (m : Op BufferManager A)
    (last : Pages (Unit {0})) (b : BufferManager)
    → Ends P (m b)
    → ((a : A) (s : BufferManager) → P a s → Ends (λ _. Q a) (last s))
    → Ends Q (deferring m last b)
Ends-deferring {Q = Q} m last b h k =
    let z = k h.value h.state h.holds in rw (h.is_ok, z.is_ok) (ended h.value z.state z.holds)

-- The stack with a page pushed, from the pages that are written for it.
push_FreeStack :
    (v w : ℕ → Option Page) (root : ℕ) (ids : List ℕ) (id : ℕ) (m dead : Page)
    (st : FreeStack v root ids)
    → let q = set_next_free_page_id (get_first_free_page_id m) (init page_type_free dead) in
      content m ≡ st.meta
      → length m.bytes ≡ 4096
      → length dead.bytes ≡ 4096
      → get_page_id dead ≡ id
      → count id ids ≡ 0
      → id ≢ 0
      → id < 2 ^ 32
      → w 0 ≡ some (content (set_first_free_page_id id m))
      → w id ≡ some (content q)
      → ((j : ℕ) → j ≢ 0 → j ≢ id → w j ≡ v j)
      → FreeStack w root (id ∷ ids)
push_FreeStack v w root ids id m dead st same m_size d_size own fresh real small at_meta at_id
      others =
    let n = get_first_free_page_id m in
    let free = init page_type_free dead in
    let q = set_next_free_page_id n free in
    let m' = set_first_free_page_id id m in
    let top : n ≡ get_first_free_page_id st.meta =
      sym (content-field m 36 4 (omega arith)) ∙ ap get_first_free_page_id same in
    let n_small : n < 256 ^ 4 =
      omega (arith, top, IsFree-small v (get_first_free_page_id st.meta) ids st.free) in
    let next : get_next_free_page_id (content q) ≡ get_first_free_page_id st.meta =
      content-field q 32 4 (omega arith)
      ∙ read_field-put_field 32 4 n free (omega (arith, length-init page_type_free dead, d_size))
          n_small
      ∙ top in
    let q_own : get_page_id (content q) ≡ id =
      content-page_id q
      ∙ read_field-put_field_ne 32 4 n free 8 4 (inl (omega arith))
      ∙ init-page_id page_type_free dead
      ∙ own in
    record {
      meta = content m';
      shown = at_meta;
      root_id =
          content-field m' 32 4 (omega arith)
          ∙ read_field-put_field_ne 36 4 id m 32 4 (inl (omega arith))
          ∙ sym (content-field m 32 4 (omega arith))
          ∙ ap get_root_page_id same
          ∙ st.root_id;
      free = (
        content-field m' 36 4 (omega arith)
            ∙ read_field-put_field 36 4 id m (omega (arith, m_size)) (omega (arith, small)),
        real,
        small,
        fresh,
        (
          content q,
          at_id,
          q_own,
          subst (λ t. IsFree w t ids) (sym next)
              (IsFree-view v w (get_first_free_page_id st.meta) ids st.free
                λ j nz on. others j nz λ e. on (ap (λ k. count k ids) e ∙ fresh)),
        ),
      );
    }

-- The page is on the stack, and no other has changed.
pub record Frees (limit : ℕ) (held : List ℕ) (root : ℕ) (ids : List ℕ) (id : ℕ)
    (b b' : BufferManager) : Type 0 where
  pub use_same : IsUsing limit held b'
  pub stack : FreeStack (view b') root (id ∷ ids)
  pub others : (j : ℕ) → j ≢ 0 → j ≢ id → view b' j ≡ view b j

-- On a well-formed pool that uses the pages `held`, where no write fails and there is room for two
-- more, deallocatePage of a page that is not in use, is not the meta page, holds its own id and is not
-- on the stack of free pages pushes it there, and changes no page but it and the meta page.
pub deallocate_page-Frees :
    (limit : ℕ) (held : List ℕ) (root : ℕ) (ids : List ℕ) (id : ℕ) (b : BufferManager) (c : Page)
    → IsUsing limit held b
    → suc (length held) < limit
    → count 0 held ≡ 0
    → count id held ≡ 0
    → FreeStack (view b) root ids
    → count id ids ≡ 0
    → id ≢ 0
    → id < 2 ^ 32
    → view b id ≡ some c
    → get_page_id c ≡ id
    → Ends (λ _. Frees limit held root ids id b) (deallocate_page id b)
unfolding deallocate_page
deallocate_page-Frees limit held root ids id b c h room no_meta unused st fresh real small shown
      own =
    Ends-and_then (fetch_page_for_write meta_page_id page_type_meta b) _
      (fetch_page_for_write-Holding limit held 0 page_type_meta b st.meta h no_meta
        (omega (arith, room)) st.shown)
      λ m b1 hm.
        Ends-deferring (push_free id m) (unpin meta_page_id true) b1 (pushed m b1 hm) λ u b5 s.
          Ends-imp (unpin meta_page_id true b5) (unpin-LetGo limit held 0 b5 s.0) λ v b6 l. record {
            use_same = l.use_less;
            stack = FreeStack-view (view b5) (view b6) root (id ∷ ids) s.1 l.same;
            others = λ j nz ne. l.same j ∙ s.2 j nz ne;
          }
  where
    Pushed : BufferManager → Type 0
    Pushed b5 =
        IsUsing limit (0 ∷ held) b5
        × FreeStack (view b5) root (id ∷ ids)
        × ((j : ℕ) → j ≢ 0 → j ≢ id → view b5 j ≡ view b j)

    pushed :
        (m : Page) (b1 : BufferManager)
        → Holding limit held 0 b st.meta m b1
        → Ends (λ _. Pushed) (push_free id m b1)
    pushed m b1 hm =
        let apart : count id (0 ∷ held) ≡ 0 = ground (arith, unused, real) in
        Ends-and_then (fetch_page_for_write id page_type_free b1) _
          (fetch_page_for_write-Holding limit (0 ∷ held) id page_type_free b1 c hm.use_more apart
            room (hm.same id ∙ shown))
          λ dead b2 hd.
            let n = get_first_free_page_id m in
            let free = init page_type_free dead in
            let q = set_next_free_page_id n free in
            let q_size : length q.bytes ≡ 4096 =
              size_put_field 32 4 n free ∙ length-init page_type_free dead ∙ Holding-size hd in
            Ends-and_then (store id q b2)
              (λ stored b3.
                and_then (unpin id true b3) (λ done. store 0 (set_first_free_page_id id m)))
              (store-Stored limit (id ∷ 0 ∷ held) id q b2 hd.use_more (ground arith) q_size)
              λ u b3 s3.
                Ends-and_then (unpin id true b3) _ (unpin-LetGo limit (0 ∷ held) id b3 s3.use_same)
                  λ v b4 l4.
                    let m' = set_first_free_page_id id m in
                    let m_size = Holding-size hm in
                    Ends-imp (store 0 m' b4)
                      (store-Stored limit (0 ∷ held) 0 m' b4 l4.use_less (ground arith)
                        (size_put_field 36 4 id m ∙ m_size))
                      λ w b5 s5.
                        let here : (id == id) ≡ true = (==_iff id id).1 refl in
                        let not_meta : (0 == id) ≡ false = ground (arith, real) in
                        let others : (j : ℕ) → j ≢ 0 → j ≢ id → view b5 j ≡ view b j = λ j nz ne.
                          let a0 : (0 == j) ≡ false = ground (arith, nz) in
                          let a1 : (id == j) ≡ false = ground (arith, ne) in
                          s5.shown j
                          ∙ (rw a0 (l4.same j))
                          ∙ s3.shown j
                          ∙ (rw a1 (hd.same j))
                          ∙ hm.same j in
                        (
                          s5.use_same,
                          push_FreeStack (view b) (view b5) root ids id m dead st hm.shown m_size
                              (Holding-size hd)
                              (sym (content-page_id dead) ∙ ap get_page_id hd.shown ∙ own) fresh
                              real small (s5.shown 0)
                              (s5.shown id
                                ∙ (rw not_meta (l4.same id))
                                ∙ s3.shown id
                                ∙ (rw here refl))
                              others,
                          others,
                        )
