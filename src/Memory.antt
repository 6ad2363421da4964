-- ===== src/Memory.antt =====
-- Byte-addressed memory: what the C of every file reads and writes through pointers.
-- Multi-byte integers are little-endian, as on x86-64.
use cruby_on_sel.Prelude.{
  ℕ, zero, suc, ◌+◌, ◌-◌, ◌*◌, ◌/◌, ◌%◌, ◌^◌, ◌≤◌, ◌<◌, ◌≡◌, refl, ◌⊎◌, inl, ◌&&◌, true, arith,
  ◌==◌, leb, ltb, if◌then◌else◌, ◌∙◌, mod-mul_split,
}
use native.Mathlib.Nat.{pow-succ', one-le-pow}

-- The byte at each address.
abbrev pub Memory : Type 0
Memory = ℕ → ℕ

abbrev pub null : ℕ
null = 0

pub poke : ℕ → ℕ → Memory → Memory
poke a b m x = if x == a then b else m x

-- An integer of `n` bytes at address `a`.
pub store : ℕ → ℕ → ℕ → Memory → Memory
unfolding poke
store zero a v m = m
store (suc n) a v m = store n (a + 1) (v / 256) (poke a (v % 256) m)

pub load : ℕ → ℕ → Memory → ℕ
load zero a m = 0
load (suc n) a m = m a % 256 + 256 * load n (a + 1) m

-- `memset(dst, byte, n)`.
pub memset : ℕ → ℕ → ℕ → Memory → Memory
memset dst b n m x = if leb dst x && ltb x (dst + n) then b else m x

-- `memcpy(dst, src, n)`; the ranges do not overlap.
pub memcpy : ℕ → ℕ → ℕ → Memory → Memory
memcpy dst src n m x = if leb dst x && ltb x (dst + n) then m (src + (x - dst)) else m x

-- The two memories agree on the `n` bytes from `a`.
abbrev pub Same : ℕ → ℕ → Memory → Memory → Type 0
Same a n m m' = (x : ℕ) → a ≤ x → x < a + n → m' x ≡ m x

pub store-outside : (n a v : ℕ) (m : Memory) (x : ℕ) → (x < a) ⊎ (a + n ≤ x) → store n a v m x ≡ m x
unfolding store
store-outside zero a v m x h = refl
store-outside (suc n) a v m x h =
    store-outside n (a + 1) (v / 256) (poke a (v % 256) m) x (ground arith) ∙ ground arith

-- Storing at one range leaves a disjoint range alone.
pub Same-store :
    (n a v b k : ℕ) (m : Memory) → (b + k ≤ a) ⊎ (a + n ≤ b) → Same b k m (store n a v m)
Same-store n a v b k m h x lo hi = store-outside n a v m x (ground arith)

pub load-Same : (n a : ℕ) (m m' : Memory) → Same a n m m' → load n a m' ≡ load n a m
unfolding load
load-Same zero a m m' s = refl
load-Same (suc n) a m m' s =
    let head = s a (omega arith) (omega arith) in
    let rest = load-Same n (a + 1) m m' (λ x lo hi. s x (omega arith) (omega arith)) in
    rw (head, rest)

-- What was stored is read back, modulo the width.
pub load-store : (n a v : ℕ) (m : Memory) → load n a (store n a v m) ≡ v % 256 ^ n
unfolding load store poke
load-store zero a v m = omega arith
load-store (suc n) a v m =
    let head = store-outside n (a + 1) (v / 256) (poke a (v % 256) m) a (inl (omega arith)) in
    let rest = load-store n (a + 1) (v / 256) (poke a (v % 256) m) in
    let cut = mod-mul_split 256 (256 ^ n) v (omega arith) (one-le-pow n 256 (omega arith)) in
    rw (head, rest, pow-succ', cut) (ground arith)

-- An integer outside the stored range reads as before.
pub load-store_apart :
    (k b n a v : ℕ) (m : Memory) → (b + k ≤ a) ⊎ (a + n ≤ b) → load k b (store n a v m) ≡ load k b m
load-store_apart k b n a v m h = load-Same k b m (store n a v m) (Same-store n a v b k m h)

pub load-zero : (n a : ℕ) (m : Memory) → ((x : ℕ) → a ≤ x → x < a + n → m x ≡ 0) → load n a m ≡ 0
unfolding load
load-zero zero a m zeros = refl
load-zero (suc n) a m zeros = omega (
  arith,
  zeros a (omega arith) (omega arith),
  load-zero n (a + 1) m (λ x lo hi. zeros x (omega arith) (omega arith)),
)

pub load-lt : (n a : ℕ) (m : Memory) → load n a m < 256 ^ n
unfolding load
load-lt zero a m = omega arith
load-lt (suc n) a m = rw pow-succ' (omega (arith, load-lt n (a + 1) m))

pub memset-inside : (p b n : ℕ) (m : Memory) (x : ℕ) → p ≤ x → x < p + n → memset p b n m x ≡ b
unfolding memset
memset-inside p b n m x lo hi = ground arith

pub memset-outside :
    (p b n : ℕ) (m : Memory) (x : ℕ) → (x < p) ⊎ (p + n ≤ x) → memset p b n m x ≡ m x
unfolding memset
memset-outside p b n m x out = ground arith

pub memcpy-inside : (p q n : ℕ) (m : Memory) (i : ℕ) → i < n → memcpy p q n m (p + i) ≡ m (q + i)
unfolding memcpy
memcpy-inside p q n m i hi =
    let e : p + i - p ≡ i = omega arith in
    let t : (leb p (p + i) && ltb (p + i) (p + n)) ≡ true = ground arith in rw (t, e)

pub memcpy-outside :
    (p q n : ℕ) (m : Memory) (x : ℕ) → (x < p) ⊎ (p + n ≤ x) → memcpy p q n m x ≡ m x
unfolding memcpy
memcpy-outside p q n m x out = ground arith

pub poke-outside : (a b : ℕ) (m : Memory) (x : ℕ) → (x < a) ⊎ (a < x) → poke a b m x ≡ m x
unfolding poke
poke-outside a b m x h = ground arith

pub poke-at : (a b : ℕ) (m : Memory) → poke a b m a ≡ b
unfolding poke
poke-at a b m = ground arith
