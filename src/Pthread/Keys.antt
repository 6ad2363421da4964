-- ===== src/Pthread/Keys.antt =====
-- Thread-specific data of ruby_pthread.c: which keys are handed out, and what they hold.
use cruby_on_sel.Prelude.{
  ℕ, ◌+◌, ◌%◌, ◌^◌, ◌≤◌, ◌<◌, ◌≡◌, ◌≢◌, refl, arith, true, false, ltb, leb, List, [], ◌∷◌, ◌++◌,
  length, length-append, ◌==◌, ◌||◌, Bool-cases, inl, inr,
}
use cruby_on_sel.Errno.{eagain, Result, ok, err}
use cruby_on_sel.Memory.{null}
use cruby_on_sel.Pthread.Source.{
  Threads, no_keys, max_keys, pthread_key_create, pthread_key_delete, pthread_getspecific,
  pthread_setspecific,
}

pub data Call : Type 0 where
  create delete : ℕ → Call
  put : ℕ → ℕ → Call

unfoldable pub after_call : Call → Threads → Threads
after_call (create key) t = (pthread_key_create key t).1
after_call (delete key) t = pthread_key_delete key t
after_call (put key value) t = (pthread_setspecific key value t).1

unfoldable pub after_calls : List Call → Threads → Threads
after_calls [] t = t
after_calls (k ∷ ks) t = after_calls ks (after_call k t)

next_key_grows :
    (k : Call) (t : Threads)
    → t.next_key ≤ max_keys
    → (t.next_key ≤ (after_call k t).next_key) × ((after_call k t).next_key ≤ max_keys)
unfolding after_call pthread_key_create pthread_key_delete pthread_setspecific
next_key_grows (create key) t h = ground arith
next_key_grows (delete key) t h = ground arith
next_key_grows (put key value) t h = ground arith

calls_grow :
    (ks : List Call) (t : Threads)
    → t.next_key ≤ max_keys
    → (t.next_key ≤ (after_calls ks t).next_key) × ((after_calls ks t).next_key ≤ max_keys)
unfolding after_calls
calls_grow [] t h = omega arith
calls_grow (k ∷ ks) t h =
    let one = next_key_grows k t h in
    omega (arith, one, calls_grow ks (after_call k t) (omega (arith, one)))

-- A key that `pthread_key_create` hands out is below 16, and no later call hands it out again,
-- whatever is created, deleted and stored in between.
pub pthread_key_create_fresh :
    (ks : List Call) (t : Threads) (p q : ℕ) {key key' : ℕ}
    → t.next_key ≤ max_keys
    → (pthread_key_create p t).0 ≡ ok key
    → (pthread_key_create q (after_calls ks (pthread_key_create p t).1)).0 ≡ ok key'
    → (key < key') × (key' < max_keys)
unfolding pthread_key_create
pthread_key_create_fresh ks t p q {key} h first second =
    ground (arith, calls_grow ks (record t { next_key = (t.next_key + 1) % 2 ^ 32 }))

-- The keys that a call hands out.
abbrev pub key_given : Result ℕ → List ℕ
key_given (ok key) = key ∷ []
key_given (err e) = []

abbrev pub given_by : Call → Threads → List ℕ
given_by (create key) t = key_given (pthread_key_create key t).0
given_by (delete key) t = []
given_by (put key value) t = []

-- The keys that a sequence of calls hands out, in order.
unfoldable pub keys_given : List Call → Threads → List ℕ
keys_given [] t = []
keys_given (k ∷ ks) t = given_by k t ++ keys_given ks (after_call k t)

create_counts :
    (key : ℕ) (t : Threads)
    → (pthread_key_create key t).1.next_key
      ≡ t.next_key + length (key_given (pthread_key_create key t).0)
unfolding pthread_key_create
create_counts key t = elim (Bool-cases (key == null || leb max_keys t.next_key)) [
  | inl full ↦ rw full (omega arith)
  | inr room ↦
      let e : (t.next_key + 1) % 2 ^ 32 ≡ t.next_key + 1 = ground arith in rw (room, e) refl
]

-- Each key that is handed out moves `next_key` on by one.
call_counts :
    (k : Call) (t : Threads) → (after_call k t).next_key ≡ t.next_key + length (given_by k t)
unfolding after_call pthread_key_delete pthread_setspecific
call_counts (create key) t = create_counts key t
call_counts (delete key) t = ground arith
call_counts (put key value) t = ground arith

calls_count :
    (ks : List Call) (t : Threads)
    → t.next_key ≤ max_keys
    → (after_calls ks t).next_key ≡ t.next_key + length (keys_given ks t)
unfolding after_calls keys_given
calls_count [] t h = omega arith
calls_count (k ∷ ks) t h =
    let bound = (next_key_grows k t h).1 in
    omega (
      arith,
      call_counts k t,
      calls_count ks (after_call k t) bound,
      length-append (given_by k t) (keys_given ks (after_call k t)),
    )

-- From the start, once a sequence of calls has handed out 16 keys, every further call reports EAGAIN,
-- and no calls at all hand out a seventeenth key, also after keys have been deleted.
pub pthread_key_create_exhausted :
    (ks ks' : List Call) (p : ℕ)
    → length (keys_given ks no_keys) ≡ max_keys
    → ((pthread_key_create p (after_calls ks' (after_calls ks no_keys))).0 ≡ err eagain)
      × (length (keys_given ks' (after_calls ks no_keys)) ≡ 0)
unfolding pthread_key_create
pthread_key_create_exhausted ks ks' p full =
    let t = after_calls ks no_keys in
    let start = calls_count ks no_keys (omega arith) in
    let bound = calls_grow ks' t (omega (arith, start, full)) in
    let count = calls_count ks' t (omega (arith, start, full)) in
    (ground (arith, start, full, bound), omega (arith, start, full, bound, count))

-- What is stored under a key below 16 is read back, other keys keep their values, and deleting the
-- key leaves NULL.
pub pthread_setspecific_lem :
    (key key' value : ℕ) (t : Threads)
    → key < max_keys
    → (pthread_getspecific key (pthread_setspecific key value t).1 ≡ value)
      × (key' ≢ key
          → pthread_getspecific key' (pthread_setspecific key value t).1
            ≡ pthread_getspecific key' t)
      × (pthread_getspecific key (pthread_key_delete key t) ≡ null)
unfolding pthread_getspecific pthread_setspecific pthread_key_delete
pthread_setspecific_lem key key' value t lt =
    let below : leb max_keys key ≡ false = ground arith in
    let in_range : ltb key max_keys ≡ true = ground arith in
    (ground arith, λ ne. ground arith, ground arith)
