-- ===== src/Alloc/Fields.antt =====
-- What the writes of ruby_alloc.c to one header do to the fields of that header and of the others.
use cruby_on_sel.Prelude.{ℕ, ◌+◌, ◌%◌, ◌^◌, ◌≤◌, ◌<◌, ◌≡◌, ◌∙◌, ◌⊎◌, arith}
use cruby_on_sel.Memory.{Memory, Same, load-Same, load-store, load-store_apart, store-outside}
use cruby_on_sel.Alloc.Header.{
  alloc_magic, header_size, size_of, capacity_of, next_of, is_free_of, magic_of, set_next,
  set_is_free, mark_used,
}
use cruby_on_sel.Alloc.Malloc.{write_header}

-- Two headers do not overlap.
abbrev pub Apart : ℕ → ℕ → Type 0
Apart a b = (b + header_size ≤ a) ⊎ (a + header_size ≤ b)

-- All fields but `next_free` read the same.
pub record Kept (m m' : Memory) (b : ℕ) : Type 0 where
  pub size : size_of m' b ≡ size_of m b
  pub capacity : capacity_of m' b ≡ capacity_of m b
  pub is_free : is_free_of m' b ≡ is_free_of m b
  pub magic : magic_of m' b ≡ magic_of m b

pub record Untouched (m m' : Memory) (b : ℕ) : Type 0 where
  pub kept : Kept m m' b
  pub next : next_of m' b ≡ next_of m b

pub Untouched-Same : (m m' : Memory) (b : ℕ) → Same b header_size m m' → Untouched m m' b
Untouched-Same m m' b s = record {
  kept = record {
    size = load-Same 8 b m m' (λ x lo hi. s x (omega arith) (omega arith));
    capacity = load-Same 8 (b + 8) m m' (λ x lo hi. s x (omega arith) (omega arith));
    is_free = load-Same 4 (b + 24) m m' (λ x lo hi. s x (omega arith) (omega arith));
    magic = load-Same 4 (b + 28) m m' (λ x lo hi. s x (omega arith) (omega arith));
  };
  next = load-Same 8 (b + 16) m m' (λ x lo hi. s x (omega arith) (omega arith));
}

-- The header that `bump` writes, and the bytes that it leaves alone.
pub record Written (a size : ℕ) (m m' : Memory) : Type 0 where
  pub size_field : size_of m' a ≡ size % 2 ^ 64
  pub capacity : capacity_of m' a ≡ size % 2 ^ 64
  pub is_free : is_free_of m' a ≡ 0
  pub magic : magic_of m' a ≡ alloc_magic

pub write_header-outside :
    (a size : ℕ) (m : Memory) (x : ℕ)
    → (x < a) ⊎ (a + header_size ≤ x)
    → write_header a size m x ≡ m x
unfolding write_header
write_header-outside a size m x h =
    store-outside 4 (a + 28) _ _ x (ground arith)
    ∙ store-outside 4 (a + 24) _ _ x (ground arith)
    ∙ store-outside 8 (a + 16) _ _ x (ground arith)
    ∙ store-outside 8 (a + 8) _ _ x (ground arith)
    ∙ store-outside 8 a _ _ x (ground arith)

pub write_header-Written : (a size : ℕ) (m : Memory) → Written a size m (write_header a size m)
unfolding write_header
write_header-Written a size m = record {
  size_field =
      load-store_apart 8 a 4 (a + 28) _ _ (omega arith)
      ∙ load-store_apart 8 a 4 (a + 24) _ _ (omega arith)
      ∙ load-store_apart 8 a 8 (a + 16) _ _ (omega arith)
      ∙ load-store_apart 8 a 8 (a + 8) _ _ (omega arith)
      ∙ load-store 8 a size m;
  capacity =
      load-store_apart 8 (a + 8) 4 (a + 28) _ _ (omega arith)
      ∙ load-store_apart 8 (a + 8) 4 (a + 24) _ _ (omega arith)
      ∙ load-store_apart 8 (a + 8) 8 (a + 16) _ _ (omega arith)
      ∙ load-store 8 (a + 8) size _;
  is_free = load-store_apart 4 (a + 24) 4 (a + 28) _ _ (omega arith) ∙ load-store 4 (a + 24) 0 _;
  magic = load-store 4 (a + 28) alloc_magic _;
}

-- The header of a block that is reused.
pub record Marked (a size : ℕ) (m m' : Memory) : Type 0 where
  pub size_field : size_of m' a ≡ size % 2 ^ 64
  pub capacity : capacity_of m' a ≡ capacity_of m a
  pub is_free : is_free_of m' a ≡ 0
  pub magic : magic_of m' a ≡ magic_of m a

-- The header of a block that is freed, now the head of the list that began at `old_head`.
pub record Released (a old_head : ℕ) (m m' : Memory) : Type 0 where
  pub size_field : size_of m' a ≡ size_of m a
  pub capacity : capacity_of m' a ≡ capacity_of m a
  pub next : next_of m' a ≡ old_head % 2 ^ 64
  pub is_free : is_free_of m' a ≡ 1
  pub magic : magic_of m' a ≡ magic_of m a

module _ (a : ℕ) (m : Memory) where
  pub mark_used-Marked : (size : ℕ) → Marked a size m (mark_used a size m)
  unfolding mark_used
  mark_used-Marked size = record {
    size_field =
        load-store_apart 8 a 4 (a + 24) _ _ (omega arith)
        ∙ load-store_apart 8 a 8 (a + 16) _ _ (omega arith)
        ∙ load-store 8 a size m;
    capacity =
        load-store_apart 8 (a + 8) 4 (a + 24) _ _ (omega arith)
        ∙ load-store_apart 8 (a + 8) 8 (a + 16) _ _ (omega arith)
        ∙ load-store_apart 8 (a + 8) 8 a _ _ (omega arith);
    is_free = load-store 4 (a + 24) 0 _;
    magic =
        load-store_apart 4 (a + 28) 4 (a + 24) _ _ (omega arith)
        ∙ load-store_apart 4 (a + 28) 8 (a + 16) _ _ (omega arith)
        ∙ load-store_apart 4 (a + 28) 8 a _ _ (omega arith);
  }

  pub mark_used-outside :
      (size x : ℕ) → (x < a) ⊎ (a + header_size ≤ x) → mark_used a size m x ≡ m x
  unfolding mark_used
  mark_used-outside size x h =
      store-outside 4 (a + 24) _ _ x (ground arith)
      ∙ store-outside 8 (a + 16) _ _ x (ground arith)
      ∙ store-outside 8 a _ _ x (ground arith)

  pub release-Released :
      (old_head : ℕ) → Released a old_head m (set_next a old_head (set_is_free a 1 m))
  release-Released old_head = record {
    size_field =
        load-store_apart 8 a 8 (a + 16) _ _ (omega arith)
        ∙ load-store_apart 8 a 4 (a + 24) _ _ (omega arith);
    capacity =
        load-store_apart 8 (a + 8) 8 (a + 16) _ _ (omega arith)
        ∙ load-store_apart 8 (a + 8) 4 (a + 24) _ _ (omega arith);
    next = load-store 8 (a + 16) old_head _;
    is_free = load-store_apart 4 (a + 24) 8 (a + 16) _ _ (omega arith) ∙ load-store 4 (a + 24) 1 m;
    magic =
        load-store_apart 4 (a + 28) 8 (a + 16) _ _ (omega arith)
        ∙ load-store_apart 4 (a + 28) 4 (a + 24) _ _ (omega arith);
  }

  pub release-outside :
      (old_head x : ℕ)
      → (x < a) ⊎ (a + header_size ≤ x)
      → set_next a old_head (set_is_free a 1 m) x ≡ m x
  release-outside old_head x h =
      store-outside 8 (a + 16) _ _ x (ground arith) ∙ store-outside 4 (a + 24) _ _ x (ground arith)

  -- Relinking a block touches its `next_free` alone.
  pub set_next-Kept : (v : ℕ) → Kept m (set_next a v m) a
  set_next-Kept v = record {
    size = load-store_apart 8 a 8 (a + 16) _ _ (omega arith);
    capacity = load-store_apart 8 (a + 8) 8 (a + 16) _ _ (omega arith);
    is_free = load-store_apart 4 (a + 24) 8 (a + 16) _ _ (omega arith);
    magic = load-store_apart 4 (a + 28) 8 (a + 16) _ _ (omega arith);
  }

  pub set_next-outside : (v x : ℕ) → (x < a) ⊎ (a + header_size ≤ x) → set_next a v m x ≡ m x
  set_next-outside v x h = store-outside 8 (a + 16) _ _ x (ground arith)

-- Memory that changed in the header of `a` alone leaves every header apart from it untouched.
pub Untouched-Apart :
    (m m' : Memory) (a b : ℕ)
    → ((x : ℕ) → (x < a) ⊎ (a + header_size ≤ x) → m' x ≡ m x)
    → Apart a b
    → Untouched m m' b
Untouched-Apart m m' a b out sep = Untouched-Same m m' b (λ x lo hi. out x (ground arith))
