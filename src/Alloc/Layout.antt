-- ===== src/Alloc/Layout.antt =====
-- How the blocks of ruby_alloc.c lie in the arena: in order of address, each a header and its
-- payload, none over another.
use cruby_on_sel.Prelude.{
  ℕ, ◌+◌, ◌%◌, ◌≤◌, ◌≡◌, ◌≢◌, ◌⊎◌, true, List, [], ◌∷◌, ◌++◌, ◌*◌, arith, has, length,
}
use cruby_on_sel.Memory.{Memory}
use cruby_on_sel.Alloc.Header.{header_size, alloc_magic, size_of, capacity_of, magic_of}

-- The blocks at the addresses of the list fill disjoint parts of the range from `lo` to `hi`.
abbrev pub Laid : Memory → ℕ → List ℕ → ℕ → Type 0
Laid m lo [] hi = lo ≤ hi
Laid m lo (a ∷ bs) hi =
    (lo ≤ a)
    × (a % 16 ≡ 0)
    × (magic_of m a ≡ alloc_magic)
    × (1 ≤ capacity_of m a)
    × (size_of m a ≤ capacity_of m a)
    × Laid m (a + header_size + capacity_of m a) bs hi

pub Laid-le : (m : Memory) (lo : ℕ) (bs : List ℕ) (hi : ℕ) → Laid m lo bs hi → lo ≤ hi
Laid-le m lo [] hi l = l
Laid-le m lo (a ∷ bs) hi l = omega (arith, Laid-le m (a + header_size + capacity_of m a) bs hi l.5)

-- One block of the range.
pub record IsBlock (m : Memory) (lo hi a : ℕ) : Type 0 where
  pub above : lo ≤ a
  pub aligned : a % 16 ≡ 0
  pub magic : magic_of m a ≡ alloc_magic
  pub room : 1 ≤ capacity_of m a
  pub fits : size_of m a ≤ capacity_of m a
  pub below : a + header_size + capacity_of m a ≤ hi

pub Laid-IsBlock :
    (m : Memory) (lo : ℕ) (bs : List ℕ) (hi a : ℕ)
    → Laid m lo bs hi
    → has a bs ≡ true
    → IsBlock m lo hi a
Laid-IsBlock m lo [] hi a l h = ground arith
Laid-IsBlock m lo (x ∷ bs) hi a l h = ground (
  arith,
  Laid-le m (x + header_size + capacity_of m x) bs hi l.5,
  Laid-IsBlock m (x + header_size + capacity_of m x) bs hi a l.5,
)

-- Two blocks of the range: one ends before the other begins.
abbrev pub Disjoint : Memory → ℕ → ℕ → Type 0
Disjoint m a b = (a + header_size + capacity_of m a ≤ b) ⊎ (b + header_size + capacity_of m b ≤ a)

pub Laid-Disjoint :
    (m : Memory) (lo : ℕ) (bs : List ℕ) (hi a b : ℕ)
    → Laid m lo bs hi
    → has a bs ≡ true
    → has b bs ≡ true
    → a ≢ b
    → Disjoint m a b
Laid-Disjoint m lo [] hi a b l ha hb ne = ground arith
Laid-Disjoint m lo (x ∷ bs) hi a b l ha hb ne = ground (
  arith,
  Laid-IsBlock m (x + header_size + capacity_of m x) bs hi a l.5,
  Laid-IsBlock m (x + header_size + capacity_of m x) bs hi b l.5,
  Laid-Disjoint m (x + header_size + capacity_of m x) bs hi a b l.5,
)

-- What the layout needs of a block when the memory changes.
pub record Stays (m m' : Memory) (b : ℕ) : Type 0 where
  pub capacity : capacity_of m' b ≡ capacity_of m b
  pub magic : magic_of m' b ≡ magic_of m b
  pub fits : size_of m' b ≤ capacity_of m b

pub Laid-Stays :
    (m m' : Memory) (lo : ℕ) (bs : List ℕ) (hi : ℕ)
    → Laid m lo bs hi
    → ((b : ℕ) → has b bs ≡ true → Stays m m' b)
    → Laid m' lo bs hi
Laid-Stays m m' lo [] hi l keep = l
Laid-Stays m m' lo (a ∷ bs) hi l keep =
    let here : Stays m m' a = keep a (ground arith) in
    let rest =
      Laid-Stays m m' (a + header_size + capacity_of m a) bs hi l.5
        (λ b h. keep b (ground arith)) in
    (
      l.0,
      l.1,
      omega (arith, here),
      omega (arith, here),
      omega (arith, here),
      rw (here.capacity) rest,
    )

-- A block placed behind all the others.
pub Laid-append :
    (m : Memory) (lo : ℕ) (bs : List ℕ) (hi hi' a : ℕ)
    → Laid m lo bs hi
    → IsBlock m hi hi' a
    → Laid m lo (bs ++ a ∷ []) hi'
Laid-append m lo [] hi hi' a l b = ground arith
Laid-append m lo (x ∷ bs) hi hi' a l b =
    (l.0, l.1, l.2, l.3, l.4, Laid-append m (x + header_size + capacity_of m x) bs hi hi' a l.5 b)

-- Each block takes more than 32 bytes of the range.
pub length-Laid :
    (m : Memory) (lo : ℕ) (bs : List ℕ) (hi : ℕ) → Laid m lo bs hi → lo + 33 * length bs ≤ hi
length-Laid m lo [] hi l = omega arith
length-Laid m lo (a ∷ bs) hi l =
    omega (arith, length-Laid m (a + header_size + capacity_of m a) bs hi l.5)
