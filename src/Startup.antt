-- ===== src/Startup.antt =====
-- The constructors of the component: init_thread_locale of ruby_libc_init.c, install_ruby_fs of
-- ruby_syscall_fs.c and install_ruby_poll of ruby_syscall_poll.c. The table of system calls belongs to
-- libsel4muslcsys, and the locale of the thread to musl: `Library` is what the code calls of them.
use cruby_on_sel.Prelude.{ℕ, ◌≡◌, ◌≢◌, ◌∙◌, arith, ℤ, negsuc, Option, some}

-- The functions that are installed.
data Handler : Type 0 where
  ruby_sys_open ruby_sys_openat ruby_sys_poll ruby_sys_ppoll : Handler

record Library (T : Type 0) : Type 0 where
  pub uselocale : ℤ → T → T
  pub muslcsys_install_cpio_interface : T → T
  pub muslcsys_install_syscall : ℕ → Handler → T → T

-- LC_GLOBAL_LOCALE, `(locale_t)-1`
abbrev lc_global_locale : ℤ
lc_global_locale = negsuc 0

-- The numbers of x86-64.
abbrev nr_open : ℕ
nr_open = 2

abbrev nr_poll : ℕ
nr_poll = 7

abbrev nr_openat : ℕ
nr_openat = 257

abbrev nr_ppoll : ℕ
nr_ppoll = 271

module _ {T : Type 0} (l : Library T) where
  unfoldable init_thread_locale : T → T
  init_thread_locale t = l.uselocale lc_global_locale t

  unfoldable install_ruby_fs : T → T
  install_ruby_fs t =
      l.muslcsys_install_syscall nr_openat ruby_sys_openat
        (l.muslcsys_install_syscall nr_open ruby_sys_open (l.muslcsys_install_cpio_interface t))

  unfoldable install_ruby_poll : T → T
  install_ruby_poll t =
      l.muslcsys_install_syscall nr_ppoll ruby_sys_ppoll
        (l.muslcsys_install_syscall nr_poll ruby_sys_poll t)

-- The table keeps what was installed last under each number.
record IsCallTable {T : Type 0} (l : Library T) (handler : T → ℕ → Option Handler) : Type 0 where
  pub here : (n : ℕ) (f : Handler) (t : T) → handler (l.muslcsys_install_syscall n f t) n ≡ some f
  pub others :
      (n m : ℕ) (f : Handler) (t : T)
      → m ≢ n
      → handler (l.muslcsys_install_syscall n f t) m ≡ handler t m
  pub cpio : (n : ℕ) (t : T) → handler (l.muslcsys_install_cpio_interface t) n ≡ handler t n

-- The four system calls lead to their functions, whichever constructor runs first.
record IsInstalled (handler : ℕ → Option Handler) : Type 0 where
  pub opens : handler nr_open ≡ some ruby_sys_open
  pub opens_at : handler nr_openat ≡ some ruby_sys_openat
  pub polls : handler nr_poll ≡ some ruby_sys_poll
  pub polls_with_mask : handler nr_ppoll ≡ some ruby_sys_ppoll

module _ {T : Type 0} (l : Library T) (handler : T → ℕ → Option Handler) (c : IsCallTable l handler)
    (t : T) where
  fs_first : IsInstalled (handler (install_ruby_poll l (install_ruby_fs l t)))
  unfolding install_ruby_fs install_ruby_poll
  fs_first = record {
    opens =
        c.others _ _ _ _ (omega arith)
        ∙ c.others _ _ _ _ (omega arith)
        ∙ c.others _ _ _ _ (omega arith)
        ∙ c.here _ _ _;
    opens_at = c.others _ _ _ _ (omega arith) ∙ c.others _ _ _ _ (omega arith) ∙ c.here _ _ _;
    polls = c.others _ _ _ _ (omega arith) ∙ c.here _ _ _;
    polls_with_mask = c.here _ _ _;
  }

  poll_first : IsInstalled (handler (install_ruby_fs l (install_ruby_poll l t)))
  unfolding install_ruby_fs install_ruby_poll
  poll_first = record {
    opens = c.others _ _ _ _ (omega arith) ∙ c.here _ _ _;
    opens_at = c.here _ _ _;
    polls =
        c.others _ _ _ _ (omega arith)
        ∙ c.others _ _ _ _ (omega arith)
        ∙ c.cpio _ _
        ∙ c.others _ _ _ _ (omega arith)
        ∙ c.here _ _ _;
    polls_with_mask =
        c.others _ _ _ _ (omega arith) ∙ c.others _ _ _ _ (omega arith) ∙ c.cpio _ _ ∙ c.here _ _ _;
  }
