-- ===== src/Mm/Vmm/Step.antt =====
-- `get_or_alloc` of mm/vmm.c in a tree of page tables.
use sinux.Prelude.{
  ℕ, zero, suc, ◌+◌, ◌-◌, ◌*◌, ◌%◌, ◌<◌, ◌≡◌, ◌≢◌, refl, sym, ap, ◌∙◌, ◌⊎◌, inl, inr, true, false,
  ◌&&◌, some, if◌then◌else◌, ltb, leb, ◌==◌, Bool-cases, arith, neq_false, ==_refl, ℕ_discrete,
}
use sinux.Mm.Phys.{page_down}
use sinux.Mm.Vmm.{
  Allocator, AllocatorLaws, present, Vm, entry, put_entry, clear_page, new_table, get_or_alloc,
}

-- Entries of aligned tables stand at different addresses.
pub entry-ne :
    (t x i j : ℕ)
    → t % 4096 ≡ 0
    → x % 4096 ≡ 0
    → i < 512
    → j < 512
    → (t ≢ x) ⊎ (i ≢ j)
    → t + 8 * i ≢ x + 8 * j
entry-ne t x i j ht hx hi hj (inl ne) e = ne (omega arith)
entry-ne t x i j ht hx hi hj (inr ne) e = ne (omega arith)

outside :
    (p x j : ℕ)
    → p % 4096 ≡ 0
    → x % 4096 ≡ 0
    → j < 512
    → p ≢ x
    → (leb p (x + 8 * j) && ltb (x + 8 * j) (p + 4096)) ≡ false
outside p x j hp hx hj ne = ground arith

module _ (pages : Allocator) (laws : AllocatorLaws pages) where
  open pages use {State, alloc}

  -- A tree: `level` tells of each page which level's table it is, 0 if it is none, and an entry of a table
  -- above level 1 that is present leads to a table one level below.
  pub record Tree (level : ℕ → ℕ) (v : Vm pages) : Type 0 where
    pub aligned : (t : ℕ) → 0 < level t → t % 4096 ≡ 0
    pub owned : (t : ℕ) → 0 < level t → laws.Owned v.free_pages t
    pub down :
        (t i : ℕ)
        → 1 < level t
        → i < 512
        → present (entry pages v t i) ≡ true
        → level (page_down (entry pages v t i)) + 1 ≡ level t

  -- There are n pages left.
  abbrev pub Room : ℕ → State → Type 0
  Room zero s = Unit
  Room (suc n) s = (p : ℕ) × (t : State) × (alloc s ≡ (some p, t)) × Room n t

  pub Room-less : (n : ℕ) (s : State) → Room (suc n) s → Room n s
  Room-less zero s r = record {}
  Room-less (suc n) s (p, t, e, r) = (p, t, e, Room-less n t r)

  -- The step from table t by entry i: the entry is present and leads to a table of the next level, and
  -- what the tables held otherwise stays.
  pub record Stepped (level : ℕ → ℕ) (t i : ℕ) (v : Vm pages) (r : ℕ × Vm pages) : Type 0 where
    pub new_level : ℕ → ℕ
    pub tree : Tree new_level r.1
    pub levels_kept : (x : ℕ) → 0 < level x → new_level x ≡ level x
    pub below : new_level r.0 + 1 ≡ level t
    pub here : present (entry pages r.1 t i) ≡ true
    pub leads : page_down (entry pages r.1 t i) ≡ r.0
    pub kept :
        (x j : ℕ)
        → 0 < level x
        → j < 512
        → (t ≢ x) ⊎ (i ≢ j)
        → entry pages r.1 x j ≡ entry pages v x j

  present-Stepped :
      (level : ℕ → ℕ) (t i : ℕ) (v : Vm pages)
      → Tree level v
      → 1 < level t
      → i < 512
      → present (entry pages v t i) ≡ true
      → Stepped level t i v (page_down (entry pages v t i), v)
  present-Stepped level t i v tree h hi e = record {
    new_level = level;
    tree = tree;
    levels_kept = λ x l. refl;
    below = tree.down t i h hi e;
    here = e;
    leads = refl;
    kept = λ x j l k ne. refl;
  }

  -- The memory with a new table p, and entry i of t leading to it.
  abbrev with_table : ℕ → ℕ → ℕ → ℕ → State → Vm pages → Vm pages
  with_table p t i flags s v =
      put_entry pages (clear_page pages (record v { free_pages = s }) p) t i (p + flags)

  with_table-here :
      (p t i flags : ℕ) (s : State) (v : Vm pages)
      → entry pages (with_table p t i flags s v) t i ≡ p + flags
  with_table-here p t i flags s v = rw (==_refl (t + 8 * i)) refl

  with_table-other :
      (p t i flags : ℕ) (s : State) (v : Vm pages) (x j : ℕ)
      → t % 4096 ≡ 0
      → p % 4096 ≡ 0
      → x % 4096 ≡ 0
      → i < 512
      → j < 512
      → p ≢ x
      → (t ≢ x) ⊎ (i ≢ j)
      → entry pages (with_table p t i flags s v) x j ≡ entry pages v x j
  with_table-other p t i flags s v x j ht hp hx hi hj new ne =
      rw
        (
          neq_false (t + 8 * i) (x + 8 * j) (entry-ne t x i j ht hx hi hj ne),
          outside p x j hp hx hj new,
        )
        refl

  with_table-new :
      (p t i flags : ℕ) (s : State) (v : Vm pages) (j : ℕ)
      → t % 4096 ≡ 0
      → p % 4096 ≡ 0
      → i < 512
      → j < 512
      → t ≢ p
      → entry pages (with_table p t i flags s v) p j ≡ 0
  with_table-new p t i flags s v j ht hp hi hj ne =
      let inside : (leb p (p + 8 * j) && ltb (p + 8 * j) (p + 4096)) ≡ true = ground arith in
      rw (neq_false (t + 8 * i) (p + 8 * j) (entry-ne t p i j ht hp hi hj (inl ne)), inside) refl

  -- A new table p below t, which no page of the tree is.
  module _ (level : ℕ → ℕ) (t i flags p : ℕ) (s : State) (v : Vm pages) (tree : Tree level v)
      (h : 1 < level t) (hi : i < 512) (odd : flags % 2 ≡ 1) (small : flags < 4096)
      (given : alloc v.free_pages ≡ (some p, s)) where
    abbrev leveled : ℕ → ℕ
    leveled x = if p == x then level t - 1 else level x

    fresh : (x : ℕ) → 0 < level x → p ≢ x
    fresh x l e = let new = laws.alloc-new v.free_pages s p given in new.2 (rw e (tree.owned x l))

    leveled-old : (x : ℕ) → p ≢ x → leveled x ≡ level x
    leveled-old x ne = rw (neq_false p x ne) refl

    leveled-new : leveled p + 1 ≡ level t
    leveled-new = rw (==_refl p) (omega arith)

    leads_to : page_down (p + flags) ≡ p
    leads_to = let new = laws.alloc-new v.free_pages s p given in omega (arith, new.0)

    leveled-below :
        (x j : ℕ)
        → 1 < leveled x
        → j < 512
        → present (entry pages (with_table p t i flags s v) x j) ≡ true
        → leveled (page_down (entry pages (with_table p t i flags s v) x j)) + 1 ≡ leveled x
    leveled-below x j l hj e =
        let new = laws.alloc-new v.free_pages s p given in
        let ht = tree.aligned t (omega arith) in
        let at : ℕ → ℕ = λ a. (with_table p t i flags s v).words a in
        elim (ℕ_discrete p x) [
          | yes same ↦
              let nil =
                with_table-new p t i flags s v j ht new.0 hi hj
                  (λ q. fresh t (omega arith) (sym q)) in
              let gone : present 0 ≡ true =
                ap present (sym (ap (λ y. at (y + 8 * j)) (sym same) ∙ nil)) ∙ e in
              cc
          | no ne ↦
              let lx : leveled x ≡ level x = leveled-old x ne in
              let hx = tree.aligned x (omega arith) in
              elim (ℕ_discrete (t + 8 * i) (x + 8 * j)) [
                | yes here ↦
                    let same : t ≡ x = omega arith in
                    let value : at (x + 8 * j) ≡ p + flags =
                      ap at (sym here) ∙ with_table-here p t i flags s v in
                    ap (λ w. leveled (page_down w) + 1) value
                    ∙ ap (λ q. leveled q + 1) leads_to
                    ∙ leveled-new
                    ∙ ap level same
                    ∙ sym lx
                | no other ↦
                    let apart : (t ≢ x) ⊎ (i ≢ j) = elim (ℕ_discrete t x) [
                      | no n ↦ inl n
                      | yes q ↦ inr (λ r. other (omega arith))
                    ] in
                    let value = with_table-other p t i flags s v x j ht new.0 hx hi hj ne apart in
                    let d = tree.down x j (omega arith) hj (ap present (sym value) ∙ e) in
                    let old = page_down (entry pages v x j) in
                    ap (λ w. leveled (page_down w) + 1) value
                    ∙ ap (λ n. n + 1) (leveled-old old (fresh old (omega arith)))
                    ∙ d
                    ∙ sym lx
              ]
        ]

    leveled-Tree : Tree leveled (with_table p t i flags s v)
    leveled-Tree =
        let new = laws.alloc-new v.free_pages s p given in
        record {
          aligned = λ x l. elim (ℕ_discrete p x) [
            | yes same ↦ ap (λ y. y % 4096) (sym same) ∙ new.0
            | no ne ↦ let lx = leveled-old x ne in tree.aligned x (omega arith)
          ];
          owned = λ x l. elim (ℕ_discrete p x) [
            | yes same ↦ rw (← same) new.3
            | no ne ↦
                let lx = leveled-old x ne in
                laws.alloc-keeps v.free_pages s (some p) x given (tree.owned x (omega arith))
          ];
          down = leveled-below;
        }

    new_table-Stepped : Stepped level t i v (new_table pages t i flags (some p, s) v)
    unfolding new_table
    new_table-Stepped =
        let new = laws.alloc-new v.free_pages s p given in
        let here = with_table-here p t i flags s v in
        let ht = tree.aligned t (omega arith) in
        record {
          new_level = leveled;
          tree = leveled-Tree;
          levels_kept = λ x l. leveled-old x (fresh x l);
          below = ap (λ q. leveled q + 1) leads_to ∙ leveled-new;
          here =
              ap present here
              ∙ (let bit : (p + flags) % 2 ≡ 1 = omega (arith, new.0) in ground arith);
          leads = ap page_down here;
          kept = λ x j l hj ne.
              with_table-other p t i flags s v x j ht new.0 (tree.aligned x l) hi hj (fresh x l) ne;
        }

  -- With a page left, `get_or_alloc` leads to a table of the next level, which was there or is new.
  pub get_or_alloc-Stepped :
      (level : ℕ → ℕ) (t i flags n : ℕ) (v : Vm pages)
      → Tree level v
      → 1 < level t
      → i < 512
      → flags % 2 ≡ 1
      → flags < 4096
      → Room (suc n) v.free_pages
      → Stepped level t i v (get_or_alloc pages t i flags v)
        × Room n (get_or_alloc pages t i flags v).1.free_pages
  unfolding get_or_alloc
  get_or_alloc-Stepped level t i flags n v tree h hi odd small room =
      elim (Bool-cases (present (entry pages v t i))) [
        | inl e ↦ rw e (present-Stepped level t i v tree h hi e, Room-less n v.free_pages room)
        | inr e ↦
            let (p, s, given, rest) = room in
            rw (e, given)
              (
                new_table-Stepped level t i flags p s v tree h hi odd small given,
                unfold new_table in rest,
              )
      ]
