-- ===== src/IpAllowlist/Networks.antt =====
-- The allow list against what its entries mean: addresses and networks.
use nodejs_wss_service_bridg.Base.{
  ℕ, ◌-◌, ◌/◌, ◌^◌, ◌≤◌, ◌<◌, ◌≡◌, ◌↔◌, ◌⊎◌, inl, inr, refl, sym, ◌∙◌, Bool, true, false, not, List,
  [], ◌∷◌, Option, none, some, arith, ltb, if◌then◌else◌, either_iff, if_false, Bool-cases,
}
use mathlib.Core.Bool.{false≢true}
use nodejs_wss_service_bridg.Base.Text.{Text, split, text_eq, text_eq_iff}
use nodejs_wss_service_bridg.IpAllowlist.{
  octet, word, of_parts, ip_to_int, agree, in_range, parse_int, second_or_empty, first_or_empty,
  has_slash, match_cidr, some_entry, is_ip_allowed, normalize_ip,
}
use nodejs_wss_service_bridg.IpAllowlist.Masks.{mask_iff}

-- What a test and a disjunction decide.
chosen_iff :
    (slash t r : Bool) {P Q : Type 0}
    → (t ≡ true) ↔ P
    → (r ≡ true) ↔ Q
    → ((if not slash then t else r) ≡ true) ↔ ((slash ≡ false) × P ⊎ (slash ≡ true) × Q)
chosen_iff true t r {P} {Q} p q = (λ e. inr (refl, q.0 e), back)
  where
    back : ((true ≡ false) × P ⊎ (true ≡ true) × Q) → r ≡ true
    back (inl (e, x)) = absurd (false≢true (sym e))
    back (inr (e, y)) = q.1 y
chosen_iff false t r {P} {Q} p q = (λ e. inl (refl, p.0 e), back)
  where
    back : ((false ≡ false) × P ⊎ (false ≡ true) × Q) → t ≡ true
    back (inl (e, x)) = p.1 x
    back (inr (e, y)) = absurd (false≢true e)

module _ (other : Text → Option ℕ) where
  -- The address lies in the network: both are addresses, and their first bits are the same.
  pub record InNetwork (ip range : Option ℕ) (bits : Option ℕ) : Type 0 where
    pub address : ℕ
    pub network : ℕ
    pub width : ℕ
    pub is_address : ip ≡ some address
    pub is_network : range ≡ some network
    pub is_width : bits ≡ some width
    pub in_word : width ≤ 32
    pub same_prefix : address / 2 ^ (32 - width) ≡ network / 2 ^ (32 - width)

  -- An entry is an address, or a network that is written with its number of bits.
  abbrev pub Admits : Text → Text → Type 0
  Admits ip entry =
      (has_slash entry ≡ false) × (ip ≡ entry)
      ⊎ (has_slash entry ≡ true)
        × InNetwork (ip_to_int other ip) (ip_to_int other (first_or_empty (split b'/' entry)))
            (parse_int (second_or_empty (split b'/' entry)))

  abbrev pub Any : Text → List Text → Type 0
  Any ip [] = ⊥
  Any ip (entry ∷ entries) = Admits ip entry ⊎ Any ip entries

  module _ (bounded : (s : Text) (n : ℕ) → other s ≡ some n → n ≤ 255) where
    octet_bound : (s : Text) (n : ℕ) → octet other s ≡ some n → n ≤ 255
    unfolding octet
    octet_bound s n e = ground (arith, bounded s n)

    word_bound :
        (a b c d : Option ℕ) (n : ℕ)
        → ((m : ℕ) → a ≡ some m → m ≤ 255)
        → ((m : ℕ) → b ≡ some m → m ≤ 255)
        → ((m : ℕ) → c ≡ some m → m ≤ 255)
        → ((m : ℕ) → d ≡ some m → m ≤ 255)
        → word a b c d ≡ some n
        → n < 2 ^ 32
    word_bound (some a) (some b) (some c) (some d) n p q r s e =
        ground (arith, p a refl, q b refl, r c refl, s d refl)
    word_bound none b c d n p q r s e = ground arith
    word_bound (some a) none c d n p q r s e = ground arith
    word_bound (some a) (some b) none d n p q r s e = ground arith
    word_bound (some a) (some b) (some c) none n p q r s e = ground arith

    parts_bound : (parts : List Text) (n : ℕ) → of_parts other parts ≡ some n → n < 2 ^ 32
    parts_bound (a ∷ b ∷ c ∷ d ∷ []) n e =
        word_bound (octet other a) (octet other b) (octet other c) (octet other d) n (octet_bound a)
          (octet_bound b) (octet_bound c) (octet_bound d) e
    parts_bound [] n e = ground arith
    parts_bound (a ∷ []) n e = ground arith
    parts_bound (a ∷ b ∷ []) n e = ground arith
    parts_bound (a ∷ b ∷ c ∷ []) n e = ground arith
    parts_bound (a ∷ b ∷ c ∷ d ∷ f ∷ rest) n e = ground arith

    ip_bound : (ip : Text) (n : ℕ) → ip_to_int other ip ≡ some n → n < 2 ^ 32
    unfolding ip_to_int
    ip_bound ip n e = parts_bound (split b'.' ip) n e

    agree_network :
        (width : ℕ) (ip range : Option ℕ)
        → width ≤ 32
        → ((n : ℕ) → ip ≡ some n → n < 2 ^ 32)
        → ((n : ℕ) → range ≡ some n → n < 2 ^ 32)
        → agree width ip range ≡ true
        → InNetwork ip range (some width)
    agree_network width none range h p q e = absurd (false≢true e)
    agree_network width (some i) none h p q e = absurd (false≢true e)
    agree_network width (some i) (some r) h p q e = record {
      address = i;
      network = r;
      width = width;
      is_address = refl;
      is_network = refl;
      is_width = refl;
      in_word = h;
      same_prefix = (mask_iff width i r h (p i refl) (q r refl)).0 e;
    }

    in_range_network :
        (bits ip range : Option ℕ)
        → ((n : ℕ) → ip ≡ some n → n < 2 ^ 32)
        → ((n : ℕ) → range ≡ some n → n < 2 ^ 32)
        → in_range bits ip range ≡ true
        → InNetwork ip range bits
    in_range_network none ip range p q e = absurd (false≢true e)
    in_range_network (some width) ip range p q e = elim (Bool-cases (ltb 32 width)) [
      | inl wide ↦ absurd (ground arith)
      | inr fits ↦
          agree_network width ip range (ground arith) p q
            (sym (if_false {A = Bool} {b = ltb 32 width} false fits) ∙ e)
    ]

    network-in_range :
        (bits ip range : Option ℕ)
        → ((n : ℕ) → ip ≡ some n → n < 2 ^ 32)
        → ((n : ℕ) → range ≡ some n → n < 2 ^ 32)
        → InNetwork ip range bits
        → in_range bits ip range ≡ true
    network-in_range bits ip range p q h =
        let narrow : ltb 32 h.width ≡ false = ground (arith, h.in_word) in
        let agreed =
          (mask_iff h.width h.address h.network h.in_word (p h.address h.is_address)
              (q h.network h.is_network)).1
            h.same_prefix in
        rw (h.is_width, h.is_address, h.is_network)
          (if_false {A = Bool} {b = ltb 32 h.width} false narrow ∙ agreed)

    match_cidr_iff : (ip entry : Text) → (match_cidr other ip entry ≡ true) ↔ Admits ip entry
    unfolding match_cidr
    match_cidr_iff ip entry =
        let parts = split b'/' entry in
        let bits = parse_int (second_or_empty parts) in
        let range = first_or_empty parts in
        chosen_iff (has_slash entry) (text_eq ip entry)
          (in_range bits (ip_to_int other ip) (ip_to_int other range)) (text_eq_iff ip entry)
          (
            in_range_network bits (ip_to_int other ip) (ip_to_int other range) (ip_bound ip)
                (ip_bound range),
            network-in_range bits (ip_to_int other ip) (ip_to_int other range) (ip_bound ip)
                (ip_bound range),
          )

    some_entry_iff :
        (ip : Text) (entries : List Text) → (some_entry other ip entries ≡ true) ↔ Any ip entries
    unfolding some_entry
    some_entry_iff ip [] = (λ e. absurd (false≢true e), λ a. absurd a)
    some_entry_iff ip (entry ∷ entries) =
        either_iff (match_cidr other ip entry) (some_entry other ip entries)
          (match_cidr_iff ip entry) (some_entry_iff ip entries)

    -- `isIpAllowed` allows an address exactly when the list is empty, or some entry admits the address
    -- behind its prefix `::ffff:`: the entry is the same text, or is a network of `b` bits, `b` at
    -- most 32, and the first `b` bits of the address and of the network are the same. A part of an
    -- address that is no plain decimal numeral must be read as a number of at most 255, or as none.
    pub is_ip_allowed_iff :
        (addr : Option Text) (entries : List Text)
        → (is_ip_allowed other addr entries ≡ true)
          ↔ ((entries ≡ []) ⊎ Any (normalize_ip addr) entries)
    unfolding is_ip_allowed
    is_ip_allowed_iff addr [] = (λ e. inl refl, λ a. refl)
    is_ip_allowed_iff addr (entry ∷ entries) =
        let listed = some_entry_iff (normalize_ip addr) (entry ∷ entries) in
        (λ e. inr (listed.0 e), λ a. listed.1 (not_empty a))
      where
        not_empty :
            ((entry ∷ entries ≡ []) ⊎ Any (normalize_ip addr) (entry ∷ entries))
            → Any (normalize_ip addr) (entry ∷ entries)
        not_empty (inl e) = absurd (cc)
        not_empty (inr a) = a
