-- ===== src/Mm/Pmm/Boot.antt =====
-- The Multiboot2 information that mm/pmm.c walks at boot: tags, and in the memory-map tags the
-- regions. The first two walks over the tags, which write no memory, are one function here; the
-- caller's loop body runs over its list. An address does not wrap. The fuel bounds the loops,
-- which run for ever on a tag or an entry of size 0; `none` means that it ran out.
use mathlib.Core.Option
use Prim.Native.Nat.{max}
use sinux.Prelude.{
  Bool-cases, inl, inr, leb→le, ℕ, zero, suc, ◌+◌, ◌*◌, ◌/◌, ◌%◌, ◌^◌, ◌≤◌, ◌<◌, ◌≡◌, refl, Option,
  none, some, List, [], ◌∷◌, ◌++◌, if◌then◌else◌, leb, ◌==◌, arith, length,
}
use sinux.Mm.Phys.{Mem, read32, read64}

-- `mb2_mmap_entry_t`
pub record Entry : Type 0 where
  pub base : ℕ
  pub len : ℕ
  pub kind : ℕ

abbrev pub tag_end : ℕ
tag_end = 0

abbrev pub tag_mmap : ℕ
tag_mmap = 6

abbrev pub read_entry : Mem → ℕ → Entry
read_entry m ep = record { base = read64 m ep; len = read64 m (ep + 8); kind = read32 m (ep + 16) }

-- `while (ep + mt->entry_size <= ee)`
unfoldable pub entries : ℕ → Mem → ℕ → ℕ → ℕ → Option (List Entry)
entries zero m es ep ee = none
entries (suc f) m es ep ee =
    let rest = Option.map (λ l. read_entry m ep ∷ l) (entries f m es (ep + es) ee) in
    if leb (ep + es) ee then rest else some []

infixr 60 ◌then_append◌
abbrev pub ◌then_append◌ : Option (List Entry) → Option (List Entry) → Option (List Entry)
none then_append b = none
some l then_append b = Option.map (λ r. l ++ r) b

-- `(tag->size + 7) & ~7u`, in 32 bits
abbrev pub tag_step : ℕ → ℕ
tag_step size = (size + 7) % 2 ^ 32 / 8 * 8

-- `while (ptr + sizeof(mb2_tag_t) <= end)`
unfoldable pub tags : ℕ → Mem → ℕ → ℕ → Option (List Entry)
tags zero m ptr end = none
tags (suc f) m ptr end =
    let kind = read32 m ptr in
    let size = read32 m (ptr + 4) in
    let rest = tags f m (ptr + tag_step size) end in
    let here = entries f m (read32 m (ptr + 8)) (ptr + 16) (ptr + size) in
    let both = here then_append rest in
    if leb (ptr + 8) end
    then if kind == tag_end then some [] else if kind == tag_mmap then both else rest
    else some []

-- The regions of the information at `info`, whose first word is its length.
unfoldable pub mmap_entries : ℕ → Mem → ℕ → Option (List Entry)
mmap_entries f m info = tags f m (info + 8) (info + read32 m info)

-- With entries of a size that is not 0 the inner loop ends within as many rounds as there are
-- bytes and one more, and it has read one entry for each whole size that fits.
pub entries_total :
    (f : ℕ) (m : Mem) (es ep ee : ℕ)
    → 0 < es
    → 0 < f
    → ee < ep + f
    → (l : List Entry) × (entries f m es ep ee ≡ some l)
      × (length l * es + ep ≤ max ee ep)
      × (ee < length l * es + ep + es)
unfolding entries
entries_total zero m es ep ee pos more enough = absurd (omega arith)
entries_total (suc f) m es ep ee pos more enough = elim (Bool-cases (leb (ep + es) ee)) [
  | inl fits ↦
      let fits' = leb→le _ _ fits in
      let (l, e, low, high) = entries_total f m es (ep + es) ee pos (omega arith) (omega arith) in
      (read_entry m ep ∷ l, rw (fits, e) refl, grind arith, grind arith)
  | inr ends ↦ ([], rw ends refl, omega arith, ground arith)
]
