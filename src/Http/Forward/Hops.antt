-- ===== src/Http/Forward/Hops.antt =====
-- The hops that `x-forwarded-for` names, at a proxied request.
use nodejs_wss_service_bridg.Base.{
  ℕ, ◌≡◌, refl, sym, ap, ◌∙◌, Bool, true, false, ◌||◌, List, [], ◌∷◌, ◌++◌, Option, none, some, map,
  has, if_both, if_false, Bool-cases, inl, inr,
}
use mathlib.Core.List.{append_assoc, append-nil}
use nodejs_wss_service_bridg.Base.Text.{
  Text, codes, is_space, split, trim, trim_start, text_eq, text_eq_iff, IsSolid, trim_of_IsSolid,
}
use nodejs_wss_service_bridg.Base.Splits.{split_of_one, split-middle}
use nodejs_wss_service_bridg.Base.TextMap.{get, get-put}
use nodejs_wss_service_bridg.Http.{Value, one, several}
use nodejs_wss_service_bridg.Http.Headers.{is_dropped, sanitize_headers}
use nodejs_wss_service_bridg.Http.Forward.{
  Incoming, is_given, forward_host, add_hop, forward_for, forward_proto, present, forward_headers,
}

-- The hops of a header's value: the comma-separated entries of each of its texts, trimmed.
abbrev pub text_hops : Text → List Text
text_hops [] = []
text_hops (c ∷ s) = map trim (split b',' (c ∷ s))

abbrev pub all_hops : List Text → List Text
all_hops [] = []
all_hops (t ∷ ts) = text_hops t ++ all_hops ts

abbrev pub hops : Option Value → List Text
hops none = []
hops (some (one t)) = text_hops t
hops (some (several ts)) = all_hops ts

map-trim_append : (xs ys : List Text) → map trim (xs ++ ys) ≡ map trim xs ++ map trim ys
map-trim_append [] ys = refl
map-trim_append (x ∷ xs) ys = ap (λ r. trim x ∷ r) (map-trim_append xs ys)

all_hops-append : (ts : List Text) (t : Text) → all_hops (ts ++ t ∷ []) ≡ all_hops ts ++ text_hops t
all_hops-append [] [] = refl
all_hops-append [] (c ∷ s) = append-nil (text_hops (c ∷ s))
all_hops-append (u ∷ ts) t =
    ap (λ r. text_hops u ++ r) (all_hops-append ts t)
    ∙ sym (append_assoc (text_hops u) (all_hops ts) (text_hops t))

-- An address is one entry: it has no comma and no white space.
module _ (c : ℕ) (s : Text) (whole : has b',' (c ∷ s) ≡ false) (solid : IsSolid (c ∷ s)) where
  address_hop : text_hops (c ∷ s) ≡ (c ∷ s) ∷ []
  address_hop =
      ap (λ r. map trim r) (split_of_one b',' (c ∷ s) whole)
      ∙ ap (λ t. t ∷ []) (trim_of_IsSolid (c ∷ s) solid)

  trim-blank : trim (b' ' ∷ c ∷ s) ≡ c ∷ s
  unfolding trim trim_start is_space
  trim-blank = trim_of_IsSolid (c ∷ s) solid

  blank_hop : map trim (split b',' (b' ' ∷ c ∷ s)) ≡ (c ∷ s) ∷ []
  blank_hop =
      ap (λ r. map trim r) (split_of_one b',' (b' ' ∷ c ∷ s) whole) ∙ ap (λ t. t ∷ []) trim-blank

  hops-add_hop :
      (given : Option Value) → hops (some (add_hop (c ∷ s) given)) ≡ hops given ++ (c ∷ s) ∷ []
  hops-add_hop none = address_hop
  hops-add_hop (some (one [])) = address_hop
  hops-add_hop (some (one (d ∷ t))) =
      ap (λ r. map trim (split b',' r)) (append_assoc (d ∷ t) (codes ", ") (c ∷ s))
      ∙ ap (λ r. map trim r) (split-middle b',' (d ∷ t) (b' ' ∷ c ∷ s))
      ∙ map-trim_append (split b',' (d ∷ t)) (split b',' (b' ' ∷ c ∷ s))
      ∙ ap (λ r. text_hops (d ∷ t) ++ r) blank_hop
  hops-add_hop (some (several ts)) =
      all_hops-append ts (c ∷ s) ∙ ap (λ r. all_hops ts ++ r) address_hop

-- A header that is not removed keeps its value.
get-sanitize_headers :
    (key : Text) (headers : List (Text × Value))
    → is_dropped true key ≡ false
    → text_eq key (codes "__proto__") ≡ false
    → get key (sanitize_headers true (map present headers)) ≡ get key headers
unfolding get sanitize_headers
get-sanitize_headers key [] k p = refl
get-sanitize_headers key ((j, v) ∷ headers) k p = elim (Bool-cases (text_eq j key)) [
  | inl here ↦
      let same : j ≡ key = (text_eq_iff j key).0 here in
      let stays : (is_dropped true j || text_eq j (codes "__proto__")) ≡ false =
        rw same (rw (k, p) refl) in
      ap (get key) (if_false {A = List (Text × Value)} _ stays) ∙ rw here refl
  | inr other ↦
      let rest = get-sanitize_headers key headers k p in
      rw other (
        if_both (λ hs. get key hs ≡ get key headers)
          (is_dropped true j || text_eq j (codes "__proto__"))
          {y = (j, v) ∷ sanitize_headers true (map present headers)} rest (rw other rest))
]

forward_host-keeps :
    (host : Option Value) (headers : List (Text × Value))
    → get (codes "x-forwarded-for") (forward_host host headers)
      ≡ get (codes "x-forwarded-for") headers
unfolding forward_host text_eq
forward_host-keeps none headers = refl
forward_host-keeps (some host) headers =
    if_both (λ hs. get (codes "x-forwarded-for") hs ≡ get (codes "x-forwarded-for") headers)
      (is_given (some host))
      (get-put (codes "x-forwarded-for") (codes "x-forwarded-host") _ headers) refl

forward_for-get :
    (c : ℕ) (s : Text) (headers : List (Text × Value))
    → get (codes "x-forwarded-for") (forward_for (some (c ∷ s)) headers)
      ≡ some (add_hop (c ∷ s) (get (codes "x-forwarded-for") headers))
unfolding forward_for text_eq
forward_for-get c s headers =
    get-put (codes "x-forwarded-for") (codes "x-forwarded-for")
      (add_hop (c ∷ s) (get (codes "x-forwarded-for") headers)) headers

forward_proto-keeps :
    (encrypted : Bool) (headers : List (Text × Value))
    → get (codes "x-forwarded-for") (forward_proto encrypted headers)
      ≡ get (codes "x-forwarded-for") headers
unfolding forward_proto text_eq
forward_proto-keeps encrypted headers =
    if_both (λ hs. get (codes "x-forwarded-for") hs ≡ get (codes "x-forwarded-for") headers)
      (is_given (get (codes "x-forwarded-proto") headers)) refl
      (get-put (codes "x-forwarded-for") (codes "x-forwarded-proto") _ headers)

not_dropped : is_dropped true (codes "x-forwarded-for") ≡ false
unfolding is_dropped text_eq
not_dropped = refl

not_proto : text_eq (codes "x-forwarded-for") (codes "__proto__") ≡ false
unfolding text_eq
not_proto = refl

-- The hops of the request, and then the address of its socket.
pub hops-forward_headers :
    (req : Incoming) (c : ℕ) (s : Text)
    → req.remote_address ≡ some (c ∷ s)
    → has b',' (c ∷ s) ≡ false
    → IsSolid (c ∷ s)
    → hops (get (codes "x-forwarded-for") (forward_headers req))
      ≡ hops (get (codes "x-forwarded-for") req.headers) ++ (c ∷ s) ∷ []
unfolding forward_headers
hops-forward_headers req c s e whole solid =
    let kept = sanitize_headers true (map present req.headers) in
    let hosted = forward_host (get (codes "host") req.headers) kept in
    ap hops (
      forward_proto-keeps req.encrypted (forward_for req.remote_address hosted)
      ∙ ap (λ remote. get (codes "x-forwarded-for") (forward_for remote hosted)) e
      ∙ forward_for-get c s hosted)
    ∙ hops-add_hop c s whole solid (get (codes "x-forwarded-for") hosted)
    ∙ ap (λ given. hops given ++ (c ∷ s) ∷ [])
        (forward_host-keeps (get (codes "host") req.headers) kept
          ∙ get-sanitize_headers (codes "x-forwarded-for") req.headers not_dropped not_proto)
