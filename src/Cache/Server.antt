-- ===== src/Cache/Server.antt =====
-- What the program relies on of a Redis server that answers, between two expiries.
use civic_pulse_24i3089_24i.Prelude.{
  ℕ, suc, ◌+◌, ◌≡◌, Bool, true, false, Option, none, some, List, ◌∷◌, if◌then◌else◌, take,
}
use civic_pulse_24i3089_24i.Text.{Str, ◌===◌}
use civic_pulse_24i3089_24i.Json.{Json}
use civic_pulse_24i3089_24i.Cache.{Redis}

-- A server that answers: `text` are its string values, `count` its counters, `items` its lists.
-- A key is used for one of the three only, as in this program.
pub record IsServer (r : Redis) : Type 0 where
  pub up : r.State → Bool
  pub text : r.State → Str → Option r.Raw
  pub count : r.State → Str → ℕ
  pub items : r.State → Str → List r.Raw
  pub loads-dumps : (j : Json) → r.loads (r.dumps j) ≡ some j
  pub get-up : (k : Str) (s : r.State) → up s ≡ true → r.get k s ≡ (some (text s k), s)
  pub set-up :
      (k : Str) (v : r.Raw) (n : ℕ) (s : r.State) → up s ≡ true → up (r.set k v n s).1 ≡ true
  pub text-set :
      (k : Str) (v : r.Raw) (n : ℕ) (s : r.State) (j : Str)
      → up s ≡ true
      → text (r.set k v n s).1 j ≡ (if k === j then some v else text s j)
  pub delete-up : (k : Str) (s : r.State) → up s ≡ true → up (r.delete k s).1 ≡ true
  pub text-delete :
      (k : Str) (s : r.State) (j : Str)
      → up s ≡ true
      → text (r.delete k s).1 j ≡ (if k === j then none else text s j)
  pub incr-up : (k : Str) (s : r.State) → up s ≡ true → up (r.incr k s).1 ≡ true
  pub text-incr :
      (k : Str) (s : r.State) (j : Str)
      → up s ≡ true
      → (k === j) ≡ false
      → text (r.incr k s).1 j ≡ text s j
  pub push_trim-up :
      (k : Str) (v : r.Raw) (n : ℕ) (s : r.State) → up s ≡ true → up (r.push_trim k v n s).1 ≡ true
  pub text-push_trim :
      (k : Str) (v : r.Raw) (n : ℕ) (s : r.State) (j : Str)
      → up s ≡ true
      → text (r.push_trim k v n s).1 j ≡ text s j
  pub items-push_trim :
      (k : Str) (v : r.Raw) (n : ℕ) (s : r.State)
      → up s ≡ true
      → items (r.push_trim k v n s).1 k ≡ take (suc n) (v ∷ items s k)
  pub range-up :
      (k : Str) (n : ℕ) (s : r.State)
      → up s ≡ true
      → (r.range k n s).0 ≡ some (take (suc n) (items s k))
  pub incr_expire-up :
      (k : Str) (n : ℕ) (s : r.State)
      → up s ≡ true
      → (up (r.incr_expire k n s).1 ≡ true)
        × ((r.incr_expire k n s).0 ≡ some (count s k + 1))
        × (count (r.incr_expire k n s).1 k ≡ count s k + 1)
