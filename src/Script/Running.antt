-- ===== src/Script/Running.antt =====
-- run of ruby.c: the script that the interpreter is given, and what becomes of its buffer.
use cruby_on_sel.Prelude.{
  if◌then◌else◌, ◌==◌, ℕ, ◌+◌, ◌<◌, ◌≡◌, true, false, List, [], ◌∷◌, Option, none, some,
}
use cruby_on_sel.Alloc.Header.{Heap, header_size}
use cruby_on_sel.Alloc.Malloc.{free}
use cruby_on_sel.Alloc.Invariant.{IsHeap, is_live}
use cruby_on_sel.Alloc.Owners.{Owns}
use cruby_on_sel.Fs.Source.{FileName}
use cruby_on_sel.Fs.Open.{FdOps, Files}
use cruby_on_sel.Script.Source.{Io, Loading, Interpreter}
use cruby_on_sel.Script.Loading.{Stopped}

-- The interpreter does not free the script that it is given, and leaves a well-formed heap.
abbrev pub KeepsScript : {T : Type 0} → Interpreter T → Type 0
KeepsScript {T} ruby =
    (b : ℕ) (s : Files T) (blocks idle : List ℕ)
    → IsHeap s.heap blocks idle
    → is_live blocks idle b ≡ true
    → (blocks' : List ℕ) × (idle' : List ℕ) × IsHeap (ruby.eval (b + header_size) s).1.heap blocks'
        idle'
      × (is_live blocks' idle' b ≡ true)

-- After the script at this address was evaluated and its block freed.
abbrev pub freed : {T : Type 0} → Interpreter T → (script : ℕ) → Files T → Files T
freed ruby script s = record {
  table = (ruby.eval script s).1.table;
  heap = free script (ruby.eval script s).1.heap;
}

-- How `run` ends, from the state `s` in which the script is read, after read_script returned `loading`.
-- Without a script, for one of the reasons for that, the interpreter only ends; otherwise it evaluates the file's bytes with a NUL after them, and their block is freed.
pub data Runs {T : Type 0} (ruby : Interpreter T) (ops : FdOps T) (io : Io T) (s : Files T)
    (blocks idle : List ℕ) (fd start size : ℕ) (loading : Loading T)
    : Option (Files T) → Type 0 where
  without_script :
      {t : T} {h : Heap} {blocks' idle' : List ℕ}
      → Stopped ops io s blocks idle fd start size
      → loading ≡ some (none, record { table = t; heap = h })
      → Owns s.heap blocks idle (λ c. false) h blocks' idle'
      → Runs ruby ops io s blocks idle fd start size loading
          (some (ruby.finalize (record { table = t; heap = h })))
  evaluated :
      (b : ℕ) (s' : Files T) {blocks' idle' : List ℕ}
      → loading ≡ some (some (b + header_size), s')
      → ((i : ℕ) → i < size → (s'.heap).memory (b + header_size + i) ≡ (s.heap).memory (start + i))
      → (s'.heap).memory (b + header_size + size) ≡ 0
      → IsHeap (freed ruby (b + header_size) s').heap blocks' (b ∷ idle')
      → Runs ruby ops io s blocks idle fd start size loading (
          some (
            ruby.finalize (
              if (ruby.eval (b + header_size) s').0 == 0
              then freed ruby (b + header_size) s'
              else ruby.report (freed ruby (b + header_size) s'))))

-- "shell.rb"
abbrev pub shell_name : FileName
shell_name = 115 ∷ 104 ∷ 101 ∷ 108 ∷ 108 ∷ 46 ∷ 114 ∷ 98 ∷ []
