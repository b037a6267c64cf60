-- ===== src/Proc/Elf.antt =====
-- kernel/proc/elf.c: the check of an ELF header, and the loader, over the interface for pages. The
-- file is a function from offsets to bytes; `vmm_map` and the copies into the pages are kept, in order,
-- as what was mapped.
pub mod Bounds
use sinux.Prelude.{
  ℕ, zero, suc, ◌+◌, ◌-◌, ◌*◌, ◌/◌, ◌%◌, ◌^◌, min, Bool, true, false, not, ◌&&◌, Option, none, some,
  List, [], ◌∷◌, ◌++◌, if◌then◌else◌, ltb, leb, ◌==◌, bit_and,
}
use sinux.Mm.Phys.{Mem, page_size, page_down, u64, read32, read64}
use sinux.Proc.Memory.{Memory}

abbrev pub user_load_base : ℕ
user_load_base = 0x400000

abbrev pub read16 : Mem → ℕ → ℕ
read16 m a = m a + 256 * m (a + 1)

-- The header is 64 bytes.
unfoldable pub elf_validate : Mem → ℕ → Bool
elf_validate d size =
    if ltb size 64
    then false
    else read32 d 0 == 0x464c457f && d 4 == 2 && d 5 == 1 && read16 d 16 == 2 && read16 d 18 == 62

-- The fields of `elf64_phdr_t` that the loader reads.
pub record Phdr : Type 0 where
  pub p_type : ℕ
  pub p_flags : ℕ
  pub p_offset : ℕ
  pub p_vaddr : ℕ
  pub p_filesz : ℕ
  pub p_memsz : ℕ

-- The program header i.
abbrev pub phdr_at : Mem → ℕ → Phdr
phdr_at d i =
    let a = u64 (read64 d 32 + i * read16 d 54) in
    record {
      p_type = read32 d a;
      p_flags = read32 d (a + 4);
      p_offset = read64 d (a + 8);
      p_vaddr = read64 d (a + 16);
      p_filesz = read64 d (a + 32);
      p_memsz = read64 d (a + 40);
    }

-- A `kmemcpy` into a page: where in the page, from where in the file, and how much.
pub record Copy : Type 0 where
  pub at_byte : ℕ
  pub from_byte : ℕ
  pub bytes : ℕ

-- One page that was mapped.
pub record Mapped : Type 0 where
  pub va : ℕ
  pub page : ℕ
  pub flags : ℕ
  pub copy : Option Copy

-- The copy into the first page, of n bytes.
abbrev pub head_copy : Phdr → ℕ → ℕ → Option Copy
head_copy ph va n =
    if n == 0
    then none
    else some (record { at_byte = ph.p_vaddr - va; from_byte = ph.p_offset; bytes = n })

-- The copy for the page at va.
unfoldable pub copy_for : Phdr → ℕ → Option Copy
copy_for ph va =
    if leb ph.p_vaddr va && not (ph.p_filesz == 0)
    then if ltb (va - ph.p_vaddr) ph.p_filesz
      then some (record {
        at_byte = 0;
        from_byte = ph.p_offset + (va - ph.p_vaddr);
        bytes = min page_size (ph.p_filesz - (va - ph.p_vaddr));
      })
      else none
    else if ltb va ph.p_vaddr
    then head_copy ph va (min (page_size - (ph.p_vaddr - va)) ph.p_filesz)
    else none

-- VMM_PRESENT, VMM_USER, and VMM_WRITABLE for a segment with PF_W.
abbrev pub vmm_flags : Phdr → ℕ
vmm_flags ph = if bit_and ph.p_flags 2 == 0 then 5 else 7

abbrev pub seg_start : Phdr → ℕ
seg_start ph = page_down ph.p_vaddr

abbrev pub seg_end : Phdr → ℕ
seg_end ph = page_down (u64 (ph.p_vaddr + ph.p_memsz + 4095))

abbrev pub is_skipped : Phdr → Bool
is_skipped ph = if ph.p_type == 1 then ph.p_memsz == 0 else true

-- `elf_info_t`
pub record ElfInfo : Type 0 where
  pub entry : ℕ
  pub load_end : ℕ
  pub valid : Bool

module _ (m : Memory) where
  open m use {State, pmm_alloc, zero_page}

  -- What the loader has done: the pages, in order, and the memory.
  pub record Loaded : Type 0 where
    pub pages : List Mapped
    pub memory : State

  -- The loop over the pages of a segment, with the rounds left; `false` is out of memory.
  unfoldable pub load_pages : ℕ → ℕ → Phdr → Loaded → Bool × Loaded
  load_pages zero va ph s = (true, s)
  load_pages (suc n) va ph s =
      let (page, mem) = pmm_alloc s.memory in
      let one : Mapped = record {
        va = va;
        page = page;
        flags = vmm_flags ph;
        copy = copy_for ph va;
      } in
      let rest =
        load_pages n (va + page_size) ph
          (record { pages = s.pages ++ one ∷ []; memory = zero_page page mem }) in
      if page == 0 then (false, record s { memory = mem }) else rest

  -- The loop over the program headers: the rounds left, i, and the end so far; `none` for a return
  -- on the way, with the end there.
  unfoldable pub load_from : ℕ → ℕ → Mem → ℕ → Loaded → (Bool × ℕ) × Loaded
  load_from zero i d load_end s = ((true, load_end), s)
  load_from (suc n) i d load_end s =
      let ph = phdr_at d i in
      let skipped = load_from n (i + 1) d load_end s in
      let (ok, t) = load_pages ((seg_end ph - seg_start ph) / page_size) (seg_start ph) ph s in
      let loaded =
        load_from n (i + 1) d (if ltb load_end (seg_end ph) then seg_end ph else load_end) t in
      if is_skipped ph
      then skipped
      else if ltb ph.p_vaddr user_load_base
      then ((false, load_end), s)
      else if ok
      then loaded
      else ((false, load_end), t)

  unfoldable pub elf_load : Mem → ℕ → Loaded → ElfInfo × Loaded
  elf_load d size s =
      let ((ok, load_end), t) = load_from (read16 d 56) 0 d 0 s in
      if elf_validate d size
      then (record { entry = if ok then read64 d 24 else 0; load_end = load_end; valid = ok }, t)
      else (record { entry = 0; load_end = 0; valid = false }, s)
