-- ===== src/Fs/Ramfs/Read.antt =====
-- The bytes of a file of kernel/fs/ramfs.c as `ramfs_read` gives them, and a round trip.
use sinux.Prelude.{
  ℕ, zero, suc, ◌+◌, ◌-◌, ◌^◌, ◌<◌, ◌≡◌, refl, sym, ap, ◌∙◌, inl, inr, false, Option, some, List,
  [], ◌∷◌, leb, Bool-cases, Option-cases, length, get_or, min, arith, ret,
}
use sinux.Fs.Ramfs.{Node, bytes_at, read_some, ramfs_read, ramfs_write}
use sinux.Fs.Ramfs.Bytes.{byte_of, byte, IsValid, Wrote, ramfs_write_lem}

length-bytes_at : (m : ℕ → ℕ) (a n : ℕ) → length (bytes_at m a n) ≡ n
length-bytes_at m a zero = refl
length-bytes_at m a (suc n) = ap suc (length-bytes_at m (a + 1) n)

get_or-bytes_at : (m : ℕ → ℕ) (a n i : ℕ) → i < n → get_or (bytes_at m a n) i 0 ≡ m (a + i)
get_or-bytes_at m a zero i h = absurd (omega arith)
get_or-bytes_at m a (suc n) zero h = let e : a ≡ a + 0 = omega arith in ap m e
get_or-bytes_at m a (suc n) (suc i) h =
    let e : a + 1 + i ≡ a + suc i = omega arith in
    get_or-bytes_at m (a + 1) n i (omega arith) ∙ ap m e

bytes_at-eq :
    (m : ℕ → ℕ) (a : ℕ) (l : List ℕ)
    → ((i : ℕ) → i < length l → m (a + i) ≡ get_or l i 0)
    → bytes_at m a (length l) ≡ l
bytes_at-eq m a [] h = refl
bytes_at-eq m a (c ∷ l) h =
    let first : m a ≡ c = (let e : a ≡ a + 0 = omega arith in ap m e) ∙ h 0 (omega arith) in
    let rest =
      bytes_at-eq m (a + 1) l
        (λ i b. let e : a + 1 + i ≡ a + suc i = omega arith in ap m e ∙ h (suc i) (omega arith)) in
    cc

-- `ramfs_read` gives as many bytes as were asked for and lie behind the position, those of the file
-- from there on, and moves the position behind them.
pub ramfs_read_lem :
    (d : Node) (pos n : ℕ)
    → IsValid d
    → ((ramfs_read d pos n).1 ≡ pos + length (ramfs_read d pos n).0)
      × (length (ramfs_read d pos n).0 ≡ min n (d.size - pos))
      × ((i : ℕ)
          → i < length (ramfs_read d pos n).0
          → get_or (ramfs_read d pos n).0 i 0 ≡ byte d (pos + i))
unfolding ramfs_read read_some
ramfs_read_lem d pos n v = elim (Option-cases d.bytes) [
  | inl e ↦
      let nothing : d.size ≡ 0 = omega (arith, v.fits, v.backed e) in
      rw e (omega arith, omega arith, λ i h. absurd (omega arith))
  | inr (m, e) ↦ elim (Bool-cases (leb d.size pos)) [
    | inl past ↦ rw (e, past) (omega arith, ground arith, λ i h. absurd (omega arith))
    | inr here ↦
        let len = length-bytes_at m pos (min n (d.size - pos)) in
        rw (e, here)
          (
            omega (arith, len),
            len,
            λ i h. get_or-bytes_at m pos (min n (d.size - pos)) i (omega (arith, len)),
          )
  ]
]

read_none : (d : Node) (pos : ℕ) → ramfs_read d pos 0 ≡ ([], pos)
unfolding ramfs_read read_some
read_none d pos = elim (Option-cases d.bytes) [
  | inl e ↦ rw e refl
  | inr (m, e) ↦ elim (Bool-cases (leb d.size pos)) [
    | inl past ↦ rw (e, past) refl
    | inr here ↦
        let least : min 0 (d.size - pos) ≡ 0 = omega arith in
        let stays : pos + 0 ≡ pos = omega arith in rw (e, here, least, stays) refl
  ]
]

read_of_Wrote :
    (pos : ℕ) (src : List ℕ) (d h : Node)
    → Wrote pos src d h
    → ramfs_read h pos (length src) ≡ (src, pos + length src)
unfolding ramfs_read read_some
read_of_Wrote pos [] d h w = let stays : pos + 0 ≡ pos = omega arith in rw stays (read_none h pos)
read_of_Wrote pos (c ∷ s) d h w = elim (Option-cases h.bytes) [
  | inl e ↦ absurd (omega (arith, w.size, w.valid.fits, w.valid.backed e))
  | inr (m, e) ↦
      let n = length (c ∷ s) in
      let here : leb h.size pos ≡ false = ground (arith, w.size) in
      let all : min n (h.size - pos) ≡ n = omega (arith, w.size) in
      let same = bytes_at-eq m pos (c ∷ s) (λ i b.
        let back : pos + i - pos ≡ i = omega arith in
        ap (λ o. byte_of o (pos + i)) (sym e)
        ∙ w.new (pos + i) (omega arith) (omega arith)
        ∙ ap (λ k. get_or (c ∷ s) k 0) back) in
      rw (e, here, all, same) refl
]

-- What was written is read back from the same position.
pub ramfs_read-write :
    (fresh : Option (ℕ → ℕ)) (pos : ℕ) (src : List ℕ) (d g : Node) (at : ℕ)
    → IsValid d
    → pos + length src + 4096 < 2 ^ 64
    → ramfs_write fresh pos src d ≡ some (ret (length src), (at, g))
    → ramfs_read g pos (length src) ≡ (src, at)
ramfs_read-write fresh pos src d g at v small e = elim (ramfs_write_lem fresh pos src d v small) [
  | inl (f, more, none_left) ↦ cc
  | inr (h, f, w) ↦
      let same : h ≡ g = cc in
      let ends : pos + length src ≡ at = cc in rw (← same, ← ends) (read_of_Wrote pos src d h w)
]
