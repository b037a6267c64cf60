-- ===== src/Fs/Ramfs/Bytes.antt =====
-- The bytes of a file of kernel/fs/ramfs.c under `ramfs_write`.
use Prim.Native.Nat.{max}
use sinux.Prelude.{
  ℕ, ◌+◌, ◌-◌, ◌%◌, ◌^◌, ◌≤◌, ◌<◌, ◌≡◌, refl, sym, ap, ◌∙◌, ◌⊎◌, inl, inr, false, Option, none,
  some, List, if◌then◌else◌, ltb, Bool-cases, Option-cases, length, get_or, arith, ret, err,
}
use sinux.Fs.Types.{enospc}
use sinux.Fs.Ramfs.{Node, moved, overlaid, grown, write_at, write_grown, ramfs_write}

-- Byte i of the file, up to its size.
abbrev pub byte_of : Option (ℕ → ℕ) → ℕ → ℕ
byte_of none i = 0
byte_of (some m) i = m i

abbrev pub byte : Node → ℕ → ℕ
byte d i = byte_of d.bytes i

-- The data has room for the size, and there is data as soon as there is room.
pub record IsValid (d : Node) : Type 0 where
  pub fits : d.size ≤ d.capacity
  pub backed : d.bytes ≡ none → d.capacity ≡ 0

-- What a write of src at pos that succeeds makes of a node.
pub record Wrote (pos : ℕ) (src : List ℕ) (d g : Node) : Type 0 where
  pub valid : IsValid g
  pub size : g.size ≡ max d.size (pos + length src)
  pub new : (i : ℕ) → pos ≤ i → i < pos + length src → byte g i ≡ get_or src (i - pos) 0
  pub before : (i : ℕ) → i < pos → i < d.size → byte g i ≡ byte d i
  pub behind : (i : ℕ) → pos + length src ≤ i → i < d.size → byte g i ≡ byte d i

-- The head of `ramfs_write` moves the bytes.
record Grew (need : ℕ) (d g : Node) : Type 0 where
  room : need ≤ g.capacity
  fits : g.size ≤ g.capacity
  backed : g.bytes ≡ none → g.capacity ≡ 0
  size : g.size ≡ d.size
  kept : (i : ℕ) → i < d.size → byte g i ≡ byte d i

byte-moved :
    (o : Option (ℕ → ℕ)) (size : ℕ) (m : ℕ → ℕ) (i : ℕ)
    → (o ≡ none → size ≡ 0)
    → i < size
    → moved o size m i ≡ byte_of o i
byte-moved none size m i h l = absurd (omega (arith, h refl))
byte-moved (some n) size m i h l = ground arith

grown-Grew :
    (fresh : Option (ℕ → ℕ)) (need : ℕ) (d : Node)
    → IsValid d
    → need + 4096 < 2 ^ 64
    → ((grown fresh need d ≡ none) × (d.capacity < need) × (fresh ≡ none))
      ⊎ ((g : Node) × (grown fresh need d ≡ some g) × Grew need d g)
unfolding grown
grown-Grew fresh need d v small = elim (Bool-cases (ltb d.capacity need)) [
  | inr enough ↦ inr (
    d,
    rw enough refl,
    record {
      room = ground arith;
      fits = v.fits;
      backed = v.backed;
      size = refl;
      kept = λ i l. refl;
    },
  )
  | inl more ↦ elim (Option-cases fresh) [
    | inl e ↦ inl (rw (more, e) refl, ground arith, e)
    | inr (m, e) ↦
        let empty : d.bytes ≡ none → d.size ≡ 0 = λ b. omega (arith, v.fits, v.backed b) in
        inr (
          record d { bytes = some (moved d.bytes d.size m); capacity = (need + 4096) % 2 ^ 64 },
          rw (more, e) refl,
          record {
            room = omega arith;
            fits = ground (arith, v.fits);
            backed = λ b. cc;
            size = refl;
            kept = λ i l. byte-moved d.bytes d.size m i empty l;
          },
        )
  ]
]

-- The node after the bytes are in.
abbrev after : (ℕ → ℕ) → ℕ → List ℕ → Node → Node
after m pos src g =
    let end = pos + length src in
    let g' = record g { bytes = some (overlaid m pos src) } in
    if ltb g.size end then record g' { size = end; inode_size = end } else g'

byte-after :
    (m : ℕ → ℕ) (pos : ℕ) (src : List ℕ) (g : Node) (i : ℕ)
    → byte (after m pos src g) i ≡ overlaid m pos src i
byte-after m pos src g i = ground arith

after-Wrote :
    (m : ℕ → ℕ) (pos : ℕ) (src : List ℕ) (d g : Node)
    → Grew (pos + length src) d g
    → g.bytes ≡ some m
    → Wrote pos src d (after m pos src g)
after-Wrote m pos src d g r e =
    let old : (i : ℕ) → i < d.size → m i ≡ byte d i =
      λ i l. ap (λ o. byte_of o i) (sym e) ∙ r.kept i l in
    record {
      valid = record { fits = ground (arith, r.room, r.fits); backed = λ b. ground arith };
      size = ground (arith, r.size);
      new = λ i a b. byte-after m pos src g i ∙ ground arith;
      before = λ i a b. byte-after m pos src g i ∙ (ground (arith, old i b));
      behind = λ i a b. byte-after m pos src g i ∙ (ground (arith, old i b));
    }

write_grown-Wrote :
    (pos : ℕ) (src : List ℕ) (d g : Node)
    → Grew (pos + length src) d g
    → (h : Node) × (write_grown pos src d (some g) ≡ some (ret (length src), (pos + length src, h)))
      × Wrote pos src d h
unfolding write_grown write_at
write_grown-Wrote pos src d g r = elim (Option-cases g.bytes) [
  | inl e ↦
      let nothing : pos + length src ≡ 0 = omega (arith, r.room, r.backed e) in
      let no_bytes : length src ≡ 0 = omega arith in
      let at_0 : pos ≡ 0 = omega arith in
      (
        g,
        ground (arith, e),
        record {
          valid = record { fits = r.fits; backed = r.backed };
          size = omega (arith, r.size);
          new = λ i a b. absurd (omega arith);
          before = λ i a b. r.kept i b;
          behind = λ i a b. r.kept i b;
        },
      )
  | inr (m, e) ↦
      let fits : ltb g.capacity (pos + length src) ≡ false = ground (arith, r.room) in
      (after m pos src g, rw (e, fits) refl, after-Wrote m pos src d g r e)
]

-- `ramfs_write` of a valid file, at a position such that no sum wraps, either needs memory and gets
-- none, and then returns -ENOSPC and changes nothing; or it returns the number of bytes, moves the
-- position behind them, keeps the file valid, and makes its size the larger of what it was and the
-- new position: those bytes are then the ones given, and the bytes before and behind them are as
-- they were.
pub ramfs_write_lem :
    (fresh : Option (ℕ → ℕ)) (pos : ℕ) (src : List ℕ) (d : Node)
    → IsValid d
    → pos + length src + 4096 < 2 ^ 64
    → ((ramfs_write fresh pos src d ≡ some (err enospc, (pos, d)))
        × (d.capacity < pos + length src)
        × (fresh ≡ none))
      ⊎ ((g : Node) × (ramfs_write fresh pos src d ≡ some (ret (length src), (pos + length src, g)))
          × Wrote pos src d g)
unfolding ramfs_write
ramfs_write_lem fresh pos src d v small =
    let same : (pos + length src) % 2 ^ 64 ≡ pos + length src = omega arith in
    rw same (elim (grown-Grew fresh (pos + length src) d v small) [
      | inl (e, more, f) ↦ inl (rw e refl, more, f)
      | inr (g, e, r) ↦ rw e (inr (write_grown-Wrote pos src d g r))
    ])
