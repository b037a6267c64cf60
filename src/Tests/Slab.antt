-- ===== src/Tests/Slab.antt =====
-- mm/slab.c over an allocator that gives out page after page: empty caches, and a cache of objects of 128
-- bytes with one slab, at 4096, whose first object is in use.
use sinux.Prelude.{
  ℕ, ◌+◌, ◌*◌, ◌≤◌, ◌≡◌, refl, ◌≢◌, inl, inr, true, false, some, List, [], ◌∷◌, if◌then◌else◌, ◌==◌,
  get_or, arith, Bool-cases, ==_iff,
}
use sinux.Mm.Pages.{Pages, PagesLaws}
use sinux.Mm.Slab.{Header, Slabs, Cache, new_header, used_header, capacity, bitmap_test, bitmap_set}
use sinux.Tests.Mm.{eight, eight-IsValid}
use sinux.Mm.Phys.{bit_test}
use sinux.Mm.Pmm.{bm_test}
use sinux.Mm.Pmm.Instance.{pmm_pages, pmm_laws, Sound}
use sinux.Mm.Slab.Bits.{count_clear}
use sinux.Mm.Slab.Page.{IsSlab, IsValid, frame-IsValid, IsSize, object, used_header-IsSlab}
use sinux.Mm.Slab.Heap.{Heap, slab_init, sizes, kfree_slab, empty_cache}
use sinux.Mm.Slab.Heap.Objects.{IsHeap, given, slab_init-IsHeap}
use sinux.Mm.Slab.Heap.Give.{Gives, kmalloc_slab_lem}
use sinux.Mm.Slab.Heap.TakeBack.{TakenBack, kfree_slab_lem}

abbrev in_order : Pages
in_order = record { State = ℕ; alloc = λ n. (4096 * (n + 1), n + 1); free = λ n p. n }

record Below (n p : ℕ) : Type 0 where
  pub nonzero : p ≢ 0
  pub before : p ≤ 4096 * n

abbrev in_order_laws : PagesLaws in_order
in_order_laws = record {
  Sound = λ n. Unit {0};
  Owned = Below;
  alloc-Sound = λ n s. tt;
  alloc-new = λ n s ne. (
    omega arith,
    (λ b. absurd (omega (arith, b.before))),
    record { nonzero = ne; before = omega arith },
  );
  alloc-keeps = λ n q s b. record { nonzero = b.nonzero; before = omega (arith, b.before) };
  free-Sound = λ n p s b. tt;
  free-keeps = λ n p q s b c ne. c;
}

abbrev blank : Header
blank = record {
  magic = 0;
  obj_size = 0;
  total_objs = 0;
  free_objs = 0;
  free_bitmap = λ w b. false;
  next = 0;
}

abbrev nowhere : ℕ → List ℕ
nowhere k = []

abbrev booted : Heap pmm_pages
booted = record {
  slabs = record { headers = λ q. blank; free_pages = eight };
  size_caches = λ k. empty_cache [] 0 0;
  cache_at = λ a. empty_cache [] 0 0;
  caches = λ i. 0;
  num_caches = 0;
}

over_pmm : Heap pmm_pages
over_pmm = slab_init pmm_pages booted

eight-Sound : Sound eight
unfolding bm_test bit_test
eight-Sound = record { valid = eight-IsValid; zero_used = refl }

over_pmm-IsHeap : IsHeap pmm_pages pmm_laws over_pmm nowhere nowhere
unfolding over_pmm
over_pmm-IsHeap = slab_init-IsHeap pmm_pages pmm_laws booted eight-Sound

abbrev unset : Heap in_order
unset = record {
  slabs = record { headers = λ q. blank; free_pages = 0 };
  size_caches = λ k. empty_cache [] 0 0;
  cache_at = λ a. empty_cache [] 0 0;
  caches = λ i. 0;
  num_caches = 0;
}

abbrev fresh : Heap in_order
fresh = slab_init in_order unset

kmalloc_slab_lem_example : Gives pmm_pages pmm_laws 4 100 over_pmm nowhere nowhere
kmalloc_slab_lem_example =
    kmalloc_slab_lem pmm_pages pmm_laws 4 100 over_pmm nowhere nowhere over_pmm-IsHeap (omega arith)
      (omega arith)

abbrev first_header : Header
first_header = used_header (new_header 128) 0

abbrev cache_128 : Cache
cache_128 = record (empty_cache [] 128 16) { partial = 4096; num_allocs = 1; num_slabs = 1 }

abbrev one_page : Slabs in_order
one_page = record { headers = λ q. first_header; free_pages = 1 }

abbrev one_object : Heap in_order
one_object = record fresh {
  slabs = one_page;
  size_caches = λ k. if k == 3 then cache_128 else fresh.size_caches k;
}

new_128-IsSlab : IsSlab 128 (new_header 128)
unfolding new_header count_clear bitmap_test capacity
new_128-IsSlab = record { magic = refl; obj_size = refl; total = refl; free = refl }

IsSize-128 : IsSize 128
IsSize-128 = record { positive = omega arith; small = omega arith }

capacity_128 : capacity 128 ≡ 31
unfolding capacity
capacity_128 = refl

first_header-IsSlab :
    IsSlab 128 first_header × (first_header.free_objs + 1 ≡ (new_header 128).free_objs)
unfolding new_header bitmap_test
first_header-IsSlab =
    used_header-IsSlab 128 0 (new_header 128) IsSize-128 new_128-IsSlab
      (omega (arith, capacity_128)) refl

cache_128-IsValid : IsValid in_order in_order_laws cache_128 one_page (4096 ∷ []) []
unfolding new_header
cache_128-IsValid = record {
  sound = tt;
  size = IsSize-128;
  partial = (refl, (λ e. absurd (omega (arith, e))), refl);
  full = refl;
  once = λ q. ground arith;
  member = λ q m.
      let at : 4096 ≡ q = ground arith in
      record {
        header = first_header-IsSlab.0;
        owned = record { nonzero = λ e. absurd (omega arith); before = omega arith };
        aligned = omega arith;
      };
  has_room = λ q m. omega arith;
  no_room = λ q m. absurd (omega arith);
}

abbrev with_room : ℕ → List ℕ
with_room k = if k == 3 then 4096 ∷ [] else []

one_object-IsHeap : IsHeap in_order in_order_laws one_object with_room nowhere
one_object-IsHeap =
    let empty = slab_init-IsHeap in_order in_order_laws unset tt in
    record {
      cache = λ k l. elim (Bool-cases (k == 3)) [
        | inl e ↦ rw e cache_128-IsValid
        | inr e ↦ rw e (
            frame-IsValid in_order in_order_laws (fresh.size_caches k) fresh.slabs one_page [] []
              (empty.cache k l) tt (λ q m. absurd (omega arith)) (λ q m. absurd (omega arith)))
      ];
      sized = λ k l. elim (Bool-cases (k == 3)) [
        | inl e ↦ let at : k ≡ 3 = (==_iff k 3).0 e in rw (e, at) refl
        | inr e ↦ rw e (empty.sized k l)
      ];
      apart = λ j k q a b ne m. ground arith;
    }

first_given : given in_order in_order_laws one_object with_room nowhere 3 4096 0 ≡ true
unfolding capacity bitmap_test bitmap_set
first_given = refl

kfree_slab_lem_example :
    (h' : Heap in_order) × (kfree_slab in_order 4 (object (get_or sizes 3 0) 4096 0) one_object
      ≡ some h')
    × TakenBack in_order in_order_laws one_object with_room nowhere 3 4096 0 h'
kfree_slab_lem_example =
    kfree_slab_lem in_order in_order_laws 4 one_object with_room nowhere 3 4096 0 one_object-IsHeap
      (omega arith) first_given (omega arith)
