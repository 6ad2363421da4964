-- ===== src/Script/Filling.antt =====
-- The loop of read_script in ruby.c.
use cruby_on_sel.Prelude.{
  ℕ, zero, suc, ◌+◌, ◌-◌, ◌≤◌, ◌<◌, ◌≡◌, refl, ◌∙◌, ◌⊎◌, inl, inr, arith, false, ◌==◌, ltb, List,
  none, some, pos, Bool-cases,
}
use cruby_on_sel.Errno.{Errno, Result, ok, err}
use cruby_on_sel.Memory.{Memory}
use cruby_on_sel.Fds.{CpioFile}
use cruby_on_sel.Alloc.Header.{Heap, arena_size, default_alignment}
use cruby_on_sel.Alloc.Invariant.{IsBlock-of}
use cruby_on_sel.Alloc.Granted.{Granted}
use cruby_on_sel.Alloc.Payload.{OnlyAt, Granted-filled}
use cruby_on_sel.Fs.Open.{FdOps, Files}
use cruby_on_sel.Fs.Opened.{entry_of}
use cruby_on_sel.Script.Source.{Io, Loading, count_of, after_read, fill_buffer}

-- A `read` of `count` bytes to `buf` on an entry: it fails and changes nothing, or it copies some of the
-- bytes from the position on, at least one if there are any, and moves the position.
pub data Reads {T : Type 0} (ops : FdOps T) (fd buf count ptr : ℕ) (file : CpioFile) (s : Files T)
    : Result ℕ × Files T → Type 0 where
  failed : {e : Errno} → Reads ops fd buf count ptr file s (err e, s)
  took :
      {n : ℕ} {t : T} {m : Memory}
      → n ≤ count
      → n ≤ file.size - file.current
      → (0 < count → file.current < file.size → 0 < n)
      → ((i : ℕ) → i < n → m (buf + i) ≡ (s.heap).memory (file.start + file.current + i))
      → OnlyAt buf n (s.heap).memory m
      → (ops.view t).get_fd_struct (pos fd)
        ≡ some (entry_of ptr (record file { current = file.current + n }))
      → Reads ops fd buf count ptr file s
          (ok n, record { table = t; heap = record (s.heap) { memory = m } })

-- `sys_read` serves a file of the archive into memory apart from it.
abbrev pub ReadsFiles : {T : Type 0} → FdOps T → Io T → Type 0
ReadsFiles {T} ops io =
    (fd buf count ptr : ℕ) (file : CpioFile) (s : Files T)
    → (ops.view s.table).get_fd_struct (pos fd) ≡ some (entry_of ptr file)
    → file.current ≤ file.size
    → (buf + count ≤ file.start) ⊎ (file.start + file.size ≤ buf)
    → Reads ops fd buf count ptr file s (io.sys_read fd buf count s)

module _ {T : Type 0} (ops : FdOps T) (fd ptr start size : ℕ) (h : Heap) (blocks idle : List ℕ)
    (b buffer : ℕ) (blocks' idle' : List ℕ) where
  -- `used` bytes have been read to the buffer, a block of `size + 1` bytes that was granted in `h`.
  pub record Filled (used : ℕ) (s : Files T) : Type 0 where
    pub granted : Granted (size + 1) default_alignment h blocks idle b buffer s.heap blocks' idle'
    pub entry :
        (ops.view s.table).get_fd_struct (pos fd)
        ≡ some (entry_of ptr (record { start = start; size = size; current = used }))
    pub contents : (i : ℕ) → i < used → (s.heap).memory (buffer + i) ≡ h.memory (start + i)

  -- The loop ends with the whole file in the buffer, or with a read that failed before its end.
  pub data Fills (io : Io T) : Loading T → Type 0 where
    whole : {s : Files T} → Filled size s → Fills io (some (some size, s))
    unread :
        {s : Files T} {used : ℕ} {e : Errno}
        → Filled used s
        → used < size
        → io.sys_read fd (buffer + used) (size + 1 - used - 1) s ≡ (err e, s)
        → Fills io (some (none, s))

  module _ (io : Io T) (serves : ReadsFiles ops io)
      (apart : (start + size ≤ h.arena) ⊎ (h.arena + arena_size ≤ start)) where
    Filled-took :
        {used n : ℕ} {s : Files T} {t : T} {m : Memory}
        → Filled used s
        → used + n ≤ size
        → ((i : ℕ) → i < n → m (buffer + used + i) ≡ (s.heap).memory (start + used + i))
        → OnlyAt (buffer + used) n (s.heap).memory m
        → (ops.view t).get_fd_struct (pos fd)
          ≡ some (entry_of ptr (record { start = start; size = size; current = used + n }))
        → Filled (used + n) (record { table = t; heap = record (s.heap) { memory = m } })
    Filled-took {used} {n} {s} {t} {m} f fits copied only moved = record {
      granted = Granted-filled m (size + 1) f.granted (omega arith) (λ x out. only x (omega arith));
      entry = moved;
      contents = λ i lt. elim (Bool-cases (ltb i used)) [
        | inl old ↦ only (buffer + i) (inl (ground arith)) ∙ f.contents i (ground arith)
        | inr new ↦
            let from_buffer : buffer + used + (i - used) ≡ buffer + i = ground arith in
            let from_start : start + used + (i - used) ≡ start + i = ground arith in
            let byte = copied (i - used) (ground arith) in
            (rw (from_buffer, from_start) at byte) ∙ (f.granted).elsewhere (start + i) (omega arith)
      ];
    }

    -- What is left of the buffer lies in the arena, and the file does not.
    buffer_apart :
        {used : ℕ} {s : Files T}
        → Filled used s
        → used ≤ size
        → (buffer + used + (size + 1 - used - 1) ≤ start) ⊎ (start + size ≤ buffer + used)
    buffer_apart f le =
        let g = f.granted in
        omega (
          arith,
          IsBlock-of g.valid b (ground (arith, g.live)),
          g.valid.inside,
          g.same_arena,
          g.address,
          g.room,
          apart,
        )

    -- One round, at what `read` returned.
    after_read-Fills :
        (used : ℕ) (s : Files T) (rest : Loading T) {r : Result ℕ × Files T}
        → used < size
        → Filled used s
        → Reads ops fd
            (buffer + used)
            (size + 1 - used - 1)
            ptr
            (record { start = start; size = size; current = used })
            s
            r
        → io.sys_read fd (buffer + used) (size + 1 - used - 1) s ≡ r
        → (used < used + count_of r.0
            → used + count_of r.0 ≤ size
            → Filled (used + count_of r.0) r.1
            → Fills io rest)
        → Fills io (after_read ops io used r rest)
    after_read-Fills used s rest more f failed e later = unread f more e
    after_read-Fills used s rest more f (took {n} {t} {m} asked left some_bytes copied only moved) e
          later =
        let positive : (n == 0) ≡ false = ground (arith, some_bytes (omega arith) more) in
        let f' : Filled (used + n) (record { table = t; heap = record (s.heap) { memory = m } }) =
          Filled-took f (omega arith) copied only moved in
        rw positive (later (ground arith) (omega arith) f')

    pub fill_buffer-Fills :
        (fuel used : ℕ) (s : Files T)
        → used ≤ size
        → size < used + fuel
        → Filled used s
        → Fills io (fill_buffer ops io fd buffer (size + 1) fuel used s)
    unfolding fill_buffer
    fill_buffer-Fills zero used s le enough f = absurd (omega arith)
    fill_buffer-Fills (suc fuel) used s le enough f =
        elim (Bool-cases (ltb (used + 1) (size + 1))) [
          | inr last ↦ let e : used ≡ size = ground arith in rw (last, e) (whole (rw e at f))
          | inl more ↦ rw more (
              after_read-Fills used s _ (ground arith) f
                (serves fd (buffer + used) (size + 1 - used - 1) ptr
                  (record { start = start; size = size; current = used }) s f.entry le
                  (buffer_apart f le))
                refl (λ grows le' f'. fill_buffer-Fills fuel _ _ le' (omega arith) f'))
        ]
