-- ===== src/Tests/Mm.antt =====
-- mm/pmm.c on a memory of eight pages, and at boot with one region.
use Prim.Native.Nat.{max}
use sinux.Prelude.{
  ℕ, ◌+◌, ◌*◌, ◌/◌, ◌≤◌, ◌<◌, ◌≡◌, refl, ◌≢◌, ◌⊎◌, true, not, ◌&&◌, some, List, if◌then◌else◌, ltb,
  ◌==◌, arith, length,
}
use sinux.Mm.Phys.{Mem, page_size, poke, bit_test}
use sinux.Mm.Pmm.{Pmm, bm_test, pmm_alloc, pmm_free}
use sinux.Mm.Pmm.Alloc.{count_free, IsValid, Allocated, pmm_alloc_lem}
use sinux.Mm.Pmm.Free.{pmm_free_lem, pmm_free-alloc}
use sinux.Mm.Pmm.Boot.{Entry, entries, entries_total}

-- Pages 0 and 2 are in use.
abbrev pub eight : Pmm
eight = record {
  mem = poke (λ _. 0) 4096 5;
  bitmap = 4096;
  total_pages = 8;
  free_pages = 6;
  bitmap_size = 1;
}

pub eight-IsValid : IsValid eight
unfolding count_free bm_test bit_test
eight-IsValid = record { bytes = λ a. ground arith; counted = refl; small = omega arith }

pmm_alloc_lem_example :
    (((j : ℕ) → j < 8 → bm_test eight j ≡ true) × (pmm_alloc eight ≡ (0, eight)))
    ⊎ ((k : ℕ) × Allocated eight k (pmm_alloc eight))
pmm_alloc_lem_example = pmm_alloc_lem eight eight-IsValid

pmm_free_lem_example :
    IsValid (pmm_free eight 8192)
    × (bm_test (pmm_free eight 8192) 2 ≡ (not (8192 / page_size == 2) && bm_test eight 2))
    × ((pmm_free eight 8192).free_pages
        ≡ (if ltb (8192 / page_size) 8 && bm_test eight (8192 / page_size) then 7 else 6))
pmm_free_lem_example = pmm_free_lem eight 8192 2 eight-IsValid (omega arith)

eight_gives : (pmm_alloc eight).0 ≢ 0
unfolding pmm_alloc bm_test bit_test
eight_gives e = omega (arith, e)

pmm_free-alloc_example : pmm_free (pmm_alloc eight).1 (pmm_alloc eight).0 ≡ eight
pmm_free-alloc_example = pmm_free-alloc eight eight-IsValid eight_gives

-- One tag with the region of 16 pages from 4096 on, and the end tag, at 64.
abbrev info : Mem
info =
    poke
      (poke
        (poke (poke (poke (poke (poke (poke (poke (λ _. 0) 64 56) 72 6) 76 40) 80 24) 89 16) 98 1)
          104 1)
        116 8)
      117 0

entries_total_example :
    (l : List Entry) × (entries 41 info 24 88 112 ≡ some l)
    × (length l * 24 + 88 ≤ max 112 88)
    × (112 < length l * 24 + 88 + 24)
entries_total_example = entries_total 41 info 24 88 112 (omega arith) (omega arith) (omega arith)

abbrev at_boot : Pmm
at_boot = record { mem = info; bitmap = 0; total_pages = 0; free_pages = 0; bitmap_size = 0 }

abbrev region : Entry
region = record { base = 4096; len = 65536; kind = 1 }
