-- ===== src/Tree/Pop.antt =====
-- allocatePage where it pops the stack of free pages, and where it adds a page to the file.
use mathlib.Core.Path.{subst}
use ryu_db.Base.{
  ℕ, suc, ◌≤◌, ◌<◌, ◌^◌, ◌≡◌, ◌≢◌, ◌⊎◌, refl, sym, ap, ◌∙◌, arith, true, false, Bool-cases, inl,
  inr, Option, none, some, List, [], ◌∷◌, length, ltb, ◌==◌, ==_iff, length-replicate,
}
use ryu_db.Base.State.{and_then, Ends, Ends-and_then, Ends-imp, ended}
use ryu_db.Page.{
  Page, init, new_page, get_page_id, get_page_type, page_type_free, get_first_free_page_id,
  set_first_free_page_id, get_next_free_page_id, get_root_page_id,
}
use ryu_db.Page.Fields.{size_put_field, read_field-put_field, read_field-put_field_ne}
use ryu_db.Buffer.{BufferManager, fetch_page_for_read, fetch_page_for_write, allocate_at_end}
use ryu_db.Buffer.View.{content, view}
use ryu_db.Buffer.Fetch.{length-new_page}
use ryu_db.Buffer.Pins.{count, IsUsing}
use ryu_db.Buffer.Use.{fetch_page_for_read-Holding}
use ryu_db.Buffer.Hold.{fetch_page_for_write-Holding}
use ryu_db.Buffer.Extend.{blank_page, view-none, allocate_at_end-Extends}
use ryu_db.Tree.Pages.{store, unpin, return}
use ryu_db.Tree.Held.{store-Stored, unpin-LetGo}
use ryu_db.Tree.WalkWrite.{unpin_read-LetGo}
use ryu_db.Tree.Content.{content-field}
use ryu_db.Tree.Upsert.{content-page_id}
use ryu_db.Tree.FreeList.{pop_free}
use ryu_db.Tree.FreeStack.{
  IsFree, FreeStack, IsFree-view, IsFree-small, init-page_id, length-init, Holding-size,
}

-- The page `id` is new to its user, and no other but the meta page has changed.
pub record Allocates (limit : ℕ) (held : List ℕ) (root : ℕ) (ids : List ℕ) (mode : ℕ)
    (b : BufferManager) (id : ℕ) (b' : BufferManager) : Type 0 where
  pub use_same : IsUsing limit held b'
  pub left : List ℕ
  pub stack : FreeStack (view b') root left
  pub taken : (ids ≡ id ∷ left) ⊎ ((ids ≡ []) × (left ≡ []) × (view b id ≡ none))
  pub real : id ≢ 0
  pub small : id < 2 ^ 32
  pub unused : count id held ≡ 0
  pub fresh : Page
  pub shown : view b' id ≡ some fresh
  pub kind : get_page_type fresh ≡ mode
  pub own : get_page_id fresh ≡ id
  pub others : (j : ℕ) → j ≢ 0 → j ≢ id → view b' j ≡ view b j
  pub once : count id left ≡ 0
  pub near : (k : ℕ) → ((j : ℕ) → k ≤ j → view b j ≡ none) → id ≤ k

init-page_type :
    (mode : ℕ) (p : Page) → length p.bytes ≡ 4096 → mode < 256 → get_page_type (init mode p) ≡ mode
unfolding init
init-page_type mode p size small =
    read_field-put_field 20 1 mode _ (omega (arith, size_put_field, size)) (omega (arith, small))

blank_page-fields :
    (mode id : ℕ)
    → mode < 256
    → id < 2 ^ 32
    → (get_page_type (content (blank_page mode id)) ≡ mode)
      × (get_page_id (content (blank_page mode id)) ≡ id)
blank_page-fields mode id few small =
    let p = blank_page mode id in
    (
      content-field p 20 1 (omega arith)
          ∙ read_field-put_field_ne 8 4 id (new_page mode) 20 1 (inr (omega arith))
          ∙ new_page_type,
      content-page_id p
          ∙ read_field-put_field 8 4 id (new_page mode) (omega (arith, length-new_page mode))
              (omega (arith, small)),
    )
  where
    new_page_type : get_page_type (new_page mode) ≡ mode
    new_page_type = unfold new_page in init-page_type mode _ (length-replicate 4096 0) few

pub append-Allocates :
    (limit : ℕ) (held : List ℕ) (root mode k : ℕ) (b : BufferManager)
    → IsUsing limit held b
    → FreeStack (view b) root []
    → mode < 256
    → view b k ≡ none
    → k < 2 ^ 32
    → Ends (Allocates limit held root [] mode b) (allocate_at_end mode b)
append-Allocates limit held root mode k b h st few absent small =
    let (gone, short) = view-none b k h.pool absent in
    Ends-imp (allocate_at_end mode b)
      (allocate_at_end-Extends limit held mode b h (omega (arith, short, small)))
      λ id b' e.
        let fresh = content (blank_page mode id) in
        let here : (id == id) ≡ true = (==_iff id id).1 refl in
        let (kind, own) = blank_page-fields mode id few e.small in
        let others : (j : ℕ) → j ≢ id → view b' j ≡ view b j = λ j ne.
          let apart : (id == j) ≡ false = ground (arith, ne) in e.shown j ∙ (rw apart refl) in
        let real : id ≢ 0 = λ zero_id.
          let none_there : view b 0 ≡ none = ap (view b) (sym zero_id) ∙ e.was_absent in
          cc (none_there, st.shown) in
        record {
          use_same = e.use_same;
          left = [];
          stack = record {
            meta = st.meta;
            shown = others 0 (λ z. real (sym z)) ∙ st.shown;
            root_id = st.root_id;
            free = st.free;
          };
          taken = inr (refl, refl, e.was_absent);
          real = real;
          small = e.small;
          unused = elim (Bool-cases (count id held == 0)) [
            | inl free ↦ ground (arith, free)
            | inr busy ↦
                let (g, found) = h.there id (ground (arith, busy)) in
                let (nothing, _) = view-none b id h.pool e.was_absent in
                absurd (cc (found, nothing))
          ];
          fresh = fresh;
          shown = e.shown id ∙ (rw here refl);
          kind = kind;
          own = own;
          others = λ j nz ne. others j ne;
          once = refl;
          near = λ l above. e.near l (above l (omega arith));
        }

-- The stack without its top, from the pages that are written for it.
pop_FreeStack :
    (v w : ℕ → Option Page) (root x : ℕ) (xs : List ℕ) (m free : Page)
    (st : FreeStack v root (x ∷ xs))
    → content m ≡ st.meta
    → length m.bytes ≡ 4096
    → v x ≡ some (content free)
    → w 0 ≡ some (content (set_first_free_page_id (get_next_free_page_id free) m))
    → ((j : ℕ) → j ≢ 0 → j ≢ x → w j ≡ v j)
    → FreeStack w root xs
pop_FreeStack v w root x xs m free st same size at_x at_meta others =
    let (top, real, small, once, (p, shown, own, rest)) = st.free in
    let page : content free ≡ p = let e : some (content free) ≡ some p = sym at_x ∙ shown in cc e in
    let n = get_next_free_page_id free in
    let next : n ≡ get_next_free_page_id p =
      sym (content-field free 32 4 (omega arith)) ∙ ap get_next_free_page_id page in
    let n_small : n < 256 ^ 4 =
      omega (arith, next, IsFree-small v (get_next_free_page_id p) xs rest) in
    let m' = set_first_free_page_id n m in
    let first : get_first_free_page_id (content m') ≡ get_next_free_page_id p =
      content-field m' 36 4 (omega arith)
      ∙ read_field-put_field 36 4 n m (omega (arith, size)) n_small
      ∙ next in
    record {
      meta = content m';
      shown = at_meta;
      root_id =
          content-field m' 32 4 (omega arith)
          ∙ read_field-put_field_ne 36 4 n m 32 4 (inl (omega arith))
          ∙ sym (content-field m 32 4 (omega arith))
          ∙ ap get_root_page_id same
          ∙ st.root_id;
      free =
          subst (λ t. IsFree w t xs) (sym first)
            (IsFree-view v w (get_next_free_page_id p) xs rest
              λ j nz on. others j nz λ e. on (ap (λ k. count k xs) e ∙ once));
    }

pub pop-Allocates :
    (limit : ℕ) (held : List ℕ) (root mode x : ℕ) (xs : List ℕ) (m : Page) (b : BufferManager)
    (st : FreeStack (view b) root (x ∷ xs))
    → IsUsing limit (0 ∷ held) b
    → suc (length held) < limit
    → count x held ≡ 0
    → content m ≡ st.meta
    → length m.bytes ≡ 4096
    → mode < 256
    → Ends (Allocates limit (0 ∷ held) root (x ∷ xs) mode b) (pop_free mode m b)
pop-Allocates limit held root mode x xs m b st h room idle same size few =
    let (top, real, small, once, (p, shown, own, rest)) = st.free in
    let first : get_first_free_page_id m ≡ x =
      sym (content-field m 36 4 (omega arith)) ∙ ap get_first_free_page_id same ∙ top in
    let apart : count x (0 ∷ held) ≡ 0 = ground (arith, idle, real) in
    let not_meta : (0 == x) ≡ false = ground (arith, real) in
    let here : (x == x) ≡ true = (==_iff x x).1 refl in
    rw first (
      Ends-and_then (fetch_page_for_read x page_type_free b) _
        (fetch_page_for_read-Holding limit (0 ∷ held) x page_type_free b p h apart room shown)
        λ fp b1 h1.
          Ends-and_then (unpin x false b1) _ (unpin_read-LetGo limit (0 ∷ held) x b p fp b1 h1)
            λ u b2 l2.
              let m' = set_first_free_page_id (get_next_free_page_id fp) m in
              let rest_of = λ (b3 : BufferManager).
                and_then (fetch_page_for_write x mode b3) λ reused b4.
                  and_then (store x (init mode reused) b4)
                    λ s b5. and_then (unpin x true b5) λ d. return x in
              Ends-and_then (store 0 m' b2) (λ s. rest_of)
                (store-Stored limit (0 ∷ held) 0 m' b2 l2.use_less (ground arith)
                  (size_put_field 36 4 (get_next_free_page_id fp) m ∙ size))
                λ u3 b3 s3.
                  let still : view b3 x ≡ some p =
                    s3.shown x ∙ (rw not_meta (l2.same x)) ∙ h1.same x ∙ shown in
                  Ends-and_then (fetch_page_for_write x mode b3) _
                    (fetch_page_for_write-Holding limit (0 ∷ held) x mode b3 p s3.use_same apart
                      room still)
                    λ reused b4 h4.
                      let q = init mode reused in
                      let q_size = length-init mode reused ∙ Holding-size h4 in
                      Ends-and_then (store x q b4)
                        (λ s b5. and_then (unpin x true b5) λ d. return x)
                        (store-Stored limit (x ∷ 0 ∷ held) x q b4 h4.use_more (ground arith) q_size)
                        λ u5 b5 s5.
                          Ends-and_then (unpin x true b5) _
                            (unpin-LetGo limit (0 ∷ held) x b5 s5.use_same)
                            λ u6 b6 l6.
                              let others : (j : ℕ) → j ≢ 0 → j ≢ x → view b6 j ≡ view b j =
                                λ j nz ne.
                                  let a0 : (0 == j) ≡ false = ground (arith, nz) in
                                  let a1 : (x == j) ≡ false = ground (arith, ne) in
                                  l6.same j
                                  ∙ s5.shown j
                                  ∙ (rw a1 (h4.same j))
                                  ∙ s3.shown j
                                  ∙ (rw a0 (l2.same j))
                                  ∙ h1.same j in
                              let x_not : (x == 0) ≡ false = ground (arith, real) in
                              let at_meta : view b6 0 ≡ some (content m') =
                                l6.same 0 ∙ s5.shown 0 ∙ (rw x_not (h4.same 0)) ∙ s3.shown 0 in
                              let at_x : view b6 x ≡ some (content q) =
                                l6.same x ∙ s5.shown x ∙ (rw here refl) in
                              ended x b6 (record {
                                use_same = l6.use_less;
                                left = xs;
                                stack =
                                    pop_FreeStack (view b) (view b6) root x xs m fp st same size
                                      (shown ∙ ap some (sym h1.shown)) at_meta others;
                                taken = inl refl;
                                real = real;
                                small = small;
                                unused = apart;
                                fresh = content q;
                                shown = at_x;
                                kind =
                                    content-field q 20 1 (omega arith)
                                    ∙ init-page_type mode reused (Holding-size h4) few;
                                own =
                                    content-page_id q
                                    ∙ init-page_id mode reused
                                    ∙ sym (content-page_id reused)
                                    ∙ ap get_page_id h4.shown
                                    ∙ own;
                                others = others;
                                once = once;
                                near = λ l above. elim (Bool-cases (ltb l x)) [
                                  | inl beyond ↦
                                      absurd (cc (above x (ground (arith, beyond)), shown))
                                  | inr within ↦ ground (arith, within)
                                ];
                              }))
