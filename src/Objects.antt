-- ===== src/Objects.antt =====
-- A table from ids to state objects that are known by reference: both the tunnel client and the agent
-- keep one, a JavaScript `Map` whose objects live on in closures after they have left it.
use nodejs_wss_service_bridg.Base.{
  ℕ, ◌+◌, ◌<◌, ◌≡◌, ◌≢◌, sym, ◌∙◌, Bool, true, false, List, none, some, arith, ◌==◌, if◌then◌else◌,
  Distinct,
}
use nodejs_wss_service_bridg.Base.Map.{
  get, put, delete, keys, get-put, get-delete_self, get-delete_ne, delete-Distinct, put-Distinct,
}

abbrev pub set {ℓ} : {A : Type ℓ} → ℕ → A → (ℕ → A) → ℕ → A
set ref s objects j = if ref == j then s else objects j

still_there :
    (k id j : ℕ) (m : List (ℕ × ℕ))
    → Distinct (keys m)
    → get k (delete id m) ≡ some j
    → (k ≢ id) × (get k m ≡ some j)
still_there k id j m d g =
    let apart : k ≢ id = λ e. absurd (ground (arith, get-delete_self id m d)) in
    (apart, sym (get-delete_ne k id m apart) ∙ g)

module _ {ℓ} {A : Type ℓ} (cleaned : A → Bool) (id_of : A → ℕ) where
  -- The table leads to objects that are not cleaned and carry their id, and every object that is not
  -- cleaned is in the table.
  pub record IsTable (streams : List (ℕ × ℕ)) (objects : ℕ → A) (next : ℕ) : Type 0 where
    pub distinct : Distinct (keys streams)
    pub live : (id ref : ℕ) → get id streams ≡ some ref → cleaned (objects ref) ≡ false
    pub named : (id ref : ℕ) → get id streams ≡ some ref → id_of (objects ref) ≡ id
    pub owned :
        (ref : ℕ) → cleaned (objects ref) ≡ false → get (id_of (objects ref)) streams ≡ some ref
    pub used : (ref : ℕ) → cleaned (objects ref) ≡ false → ref < next

  module _ {streams : List (ℕ × ℕ)} {objects : ℕ → A} {next : ℕ}
      (h : IsTable streams objects next) where
    pub set-IsTable :
        (ref : ℕ) (s : A)
        → cleaned s ≡ cleaned (objects ref)
        → id_of s ≡ id_of (objects ref)
        → IsTable streams (set ref s objects) next
    set-IsTable ref s e i = record {
      distinct = h.distinct;
      live = λ id j g. ground (arith, h.live id j g);
      named = λ id j g. ground (arith, h.named id j g);
      owned = λ j l. ground (arith, h.owned j);
      used = λ j l. ground (arith, h.used j);
    }

    pub drop-IsTable :
        (ref : ℕ) (s : A)
        → cleaned (objects ref) ≡ false
        → cleaned s ≡ true
        → IsTable (delete (id_of (objects ref)) streams) (set ref s objects) next
    drop-IsTable ref s l e = record {
      distinct = (delete-Distinct (id_of (objects ref)) streams h.distinct).0;
      live = λ k j g.
          let (apart, there) = still_there k (id_of (objects ref)) j streams h.distinct g in
          ground (arith, h.live k j there, h.named k j there);
      named = λ k j g.
          let (apart, there) = still_there k (id_of (objects ref)) j streams h.distinct g in
          ground (arith, h.named k j there);
      owned = λ j k.
          let other : ref ≢ j = λ same. ground arith in
          let apart : id_of (objects j) ≢ id_of (objects ref) =
            λ same. ground (arith, h.owned j, h.owned ref l) in
          ground (
            arith,
            h.owned j,
            get-delete_ne (id_of (objects j)) (id_of (objects ref)) streams apart,
          );
      used = λ j k. ground (arith, h.used j);
    }

    pub add-IsTable :
        (id : ℕ) (s : A)
        → get id streams ≡ none
        → cleaned s ≡ false
        → id_of s ≡ id
        → IsTable (put id next streams) (set next s objects) (next + 1)
    add-IsTable id s fresh l i = record {
      distinct = put-Distinct id next streams h.distinct;
      live = λ k j g. ground (arith, get-put k id next streams, h.live k j);
      named = λ k j g. ground (arith, get-put k id next streams, h.named k j, h.live k j, h.used j);
      owned = λ j k. ground (
        arith,
        get-put (id_of (objects j)) id next streams,
        get-put (id_of s) id next streams,
        h.owned j,
        h.used j,
      );
      used = λ j k. ground (arith, h.used j);
    }
