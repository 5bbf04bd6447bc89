-- ===== src/Base/Map.antt =====
-- A JavaScript `Map` with numbers for keys: entries in the order of their insertion.
use nodejs_wss_service_bridg.Base.{
  ℕ, ◌≡◌, ◌≢◌, refl, true, false, List, [], ◌∷◌, Option, none, some, arith, ◌==◌, if◌then◌else◌,
  has, Distinct, ◌||◌,
}

module _ {ℓ} {V : Type ℓ} where
  unfoldable pub get : ℕ → List (ℕ × V) → Option V
  get k [] = none
  get k ((j, v) ∷ m) = if j == k then some v else get k m

  -- `set` keeps the place of a key that is there, and adds a new key at the end.
  unfoldable pub put : ℕ → V → List (ℕ × V) → List (ℕ × V)
  put k v [] = (k, v) ∷ []
  put k v ((j, w) ∷ m) = if j == k then (j, v) ∷ m else (j, w) ∷ put k v m

  unfoldable pub delete : ℕ → List (ℕ × V) → List (ℕ × V)
  delete k [] = []
  delete k ((j, w) ∷ m) = if j == k then m else (j, w) ∷ delete k m

  abbrev pub keys : List (ℕ × V) → List ℕ
  keys [] = []
  keys ((j, v) ∷ m) = j ∷ keys m

  abbrev pub values : List (ℕ × V) → List V
  values [] = []
  values ((j, v) ∷ m) = v ∷ values m

  pub get-put :
      (j k : ℕ) (v : V) (m : List (ℕ × V))
      → get j (put k v m) ≡ (if k == j then some v else get j m)
  unfolding get put
  get-put j k v [] = refl
  get-put j k v ((i, w) ∷ m) = ground (arith, get-put j k v m)

  pub has-keys-delete_ne :
      (j k : ℕ) (m : List (ℕ × V)) → j ≢ k → has j (keys (delete k m)) ≡ has j (keys m)
  unfolding delete
  has-keys-delete_ne j k [] h = refl
  has-keys-delete_ne j k ((i, w) ∷ m) h = ground (arith, has-keys-delete_ne j k m h)

  pub get-eq-none : (k : ℕ) (m : List (ℕ × V)) → has k (keys m) ≡ false → get k m ≡ none
  unfolding get
  get-eq-none k [] h = refl
  get-eq-none k ((i, w) ∷ m) h = ground (arith, get-eq-none k m)

  pub has-of-get : (k : ℕ) (m : List (ℕ × V)) (v : V) → get k m ≡ some v → has k (keys m) ≡ true
  unfolding get
  has-of-get k [] v h = ground arith
  has-of-get k ((i, w) ∷ m) v h = ground (arith, has-of-get k m v)

  pub get-delete_ne : (j k : ℕ) (m : List (ℕ × V)) → j ≢ k → get j (delete k m) ≡ get j m
  unfolding get delete
  get-delete_ne j k [] h = refl
  get-delete_ne j k ((i, w) ∷ m) h = ground (arith, get-delete_ne j k m h)

  pub delete-Distinct :
      (k : ℕ) (m : List (ℕ × V))
      → Distinct (keys m)
      → Distinct (keys (delete k m)) × (has k (keys (delete k m)) ≡ false)
  unfolding delete
  delete-Distinct k [] d = (tt, refl)
  delete-Distinct k ((i, w) ∷ m) d =
      ground (arith, delete-Distinct k m d.1, has-keys-delete_ne i k m)

  pub get-delete_self : (k : ℕ) (m : List (ℕ × V)) → Distinct (keys m) → get k (delete k m) ≡ none
  get-delete_self k m d = get-eq-none k (delete k m) (delete-Distinct k m d).1

  pub has-keys-put :
      (j k : ℕ) (v : V) (m : List (ℕ × V)) → has j (keys (put k v m)) ≡ (k == j || has j (keys m))
  unfolding put
  has-keys-put j k v [] = ground arith
  has-keys-put j k v ((i, w) ∷ m) = ground (arith, has-keys-put j k v m)

  pub put-Distinct :
      (k : ℕ) (v : V) (m : List (ℕ × V)) → Distinct (keys m) → Distinct (keys (put k v m))
  unfolding put
  put-Distinct k v [] d = (refl, tt)
  put-Distinct k v ((i, w) ∷ m) d = ground (arith, put-Distinct k v m d.1, has-keys-put i k v m)
