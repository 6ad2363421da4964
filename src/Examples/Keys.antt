-- ===== src/Examples/Keys.antt =====
-- Examples for the keys of ruby_pthread.c.
use cruby_on_sel.Prelude.{◌<◌, ◌≡◌, refl, arith, List, [], ◌∷◌, replicate, length}
use cruby_on_sel.Errno.{ok, err, eagain}
use cruby_on_sel.Pthread.Source.{no_keys, max_keys, pthread_key_create, pthread_key_delete}
use cruby_on_sel.Pthread.Keys.{
  Call, create, delete, after_call, after_calls, keys_given, pthread_key_create_fresh,
  pthread_key_create_exhausted,
}

-- A key is created, deleted, and another is created.
first_key : (pthread_key_create 0x3000 no_keys).0 ≡ ok 0
unfolding pthread_key_create
first_key = refl

second_key :
    (pthread_key_create 0x3000
      (after_calls (delete 0 ∷ []) (pthread_key_create 0x3000 no_keys).1)).0
    ≡ ok 1
unfolding pthread_key_create after_calls after_call pthread_key_delete
second_key = refl

pthread_key_create_fresh_example : (0 < 1) × (1 < max_keys)
pthread_key_create_fresh_example =
    pthread_key_create_fresh (delete 0 ∷ []) no_keys 0x3000 0x3000 (omega arith) first_key
      second_key

abbrev sixteen_keys : List Call
sixteen_keys = replicate 16 (create 0x3000)

all_created : length (keys_given sixteen_keys no_keys) ≡ max_keys
unfolding keys_given after_call pthread_key_create
all_created = refl

pthread_key_create_exhausted_example :
    ((pthread_key_create 0x3000
        (after_calls (delete 3 ∷ create 0x3000 ∷ []) (after_calls sixteen_keys no_keys))).0
      ≡ err eagain)
    × (length (keys_given (delete 3 ∷ create 0x3000 ∷ []) (after_calls sixteen_keys no_keys)) ≡ 0)
pthread_key_create_exhausted_example =
    pthread_key_create_exhausted sixteen_keys (delete 3 ∷ create 0x3000 ∷ []) 0x3000 all_created
