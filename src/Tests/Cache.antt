-- ===== src/Tests/Cache.antt =====
-- A cache of two numbers.
use yomitan_audio_fast.Prelude.{ℕ, ℕ_discrete, ◌<◌, ◌≡◌, ◌≢◌, refl, [], ◌∷◌, some, arith}
use yomitan_audio_fast.Prelude.Int.{pos}
use yomitan_audio_fast.Cache.{LruCache, init, lookup, get, put}
use yomitan_audio_fast.Cache.Valid.{IsValid, init-IsValid, get-IsValid, put-IsValid}
use yomitan_audio_fast.Cache.Reads.{lookup-get, lookup-put_self, lookup-put_ne, victim}

abbrev one : LruCache ℕ ℕ
one = put ℕ_discrete (init (pos 2)) 1 10

abbrev two : LruCache ℕ ℕ
two = put ℕ_discrete one 2 20

two-IsValid : IsValid ℕ_discrete two
two-IsValid =
    put-IsValid ℕ_discrete one 2 20
      (put-IsValid ℕ_discrete (init (pos 2)) 1 10 (init-IsValid ℕ_discrete (pos 2)))

-- the entry read last is the one that stays
put-after_get : (put ℕ_discrete (get ℕ_discrete two 1).1 3 30).values ≡ (1, 10) ∷ (3, 30) ∷ []
unfolding init get put lookup ℕ_discrete
put-after_get = refl

get-IsValid_example : IsValid ℕ_discrete (get ℕ_discrete two 1).1
get-IsValid_example = get-IsValid ℕ_discrete two 1 two-IsValid

put-IsValid_example : IsValid ℕ_discrete (put ℕ_discrete two 3 30)
put-IsValid_example = put-IsValid ℕ_discrete two 3 30 two-IsValid

lookup-get_example :
    lookup ℕ_discrete 2 (get ℕ_discrete two 1).1.values ≡ lookup ℕ_discrete 2 two.values
lookup-get_example = lookup-get ℕ_discrete two 1 2 two-IsValid

two-capacity : 0 < two.capacity
unfolding put init
two-capacity = omega arith

lookup-put_self_example : lookup ℕ_discrete 3 (put ℕ_discrete two 3 30).values ≡ some 30
lookup-put_self_example = lookup-put_self ℕ_discrete two 3 30 two-IsValid two-capacity

one-IsKept : victim ℕ_discrete two 3 ≢ some 2
unfolding victim put init lookup ℕ_discrete
one-IsKept e = ground arith

lookup-put_ne_example :
    lookup ℕ_discrete 2 (put ℕ_discrete two 3 30).values ≡ lookup ℕ_discrete 2 two.values
lookup-put_ne_example = lookup-put_ne ℕ_discrete two 3 2 30 two-IsValid (omega arith) one-IsKept
