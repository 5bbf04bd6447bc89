-- ===== src/Http/Upgrade/Grants.antt =====
-- Which upgrades `handleUpgrade` hands to the WebSocket servers.
use mathlib.Core.Bool.{false≢true}
use nodejs_wss_service_bridg.Base.{
  ℕ, ◌≡◌, ◌≢◌, ◌↔◌, ◌⊎◌, inl, inr, refl, sym, ◌∙◌, Bool, true, false, ◌&&◌, not, List, [], ◌∷◌,
  Option, none, some, String, if◌then◌else◌, arith, either_iff, Bool-cases,
}
use nodejs_wss_service_bridg.Base.Text.{Text, codes, text_eq, text_eq_iff, split, trim}
use nodejs_wss_service_bridg.IpAllowlist.{is_ip_allowed, first_or_empty}
use nodejs_wss_service_bridg.Http.Headers.{to_lower, text_in}
use nodejs_wss_service_bridg.Http.Auth.{verify_basic_auth}
use nodejs_wss_service_bridg.Http.Auth.Credentials.{HasCredentials, verify_basic_auth_iff}
use nodejs_wss_service_bridg.Http.Upgrade.{
  Request, Settings, Endpoint, tunnel, agent, Action, not_implemented, upgrade_required, forbidden,
  unauthorized, upgrade, reject_upgrade, header_or_empty, path_or_url, is_foreign,
  is_agent_request_secure, handle_agent_upgrade, handle_upgrade,
}

abbrev pub Listed : Text → List Text → Type 0
Listed s [] = ⊥
Listed s (t ∷ ts) = (s ≡ t) ⊎ Listed s ts

text_in_iff : (s : Text) (ts : List Text) → (text_in s ts ≡ true) ↔ Listed s ts
unfolding text_in
text_in_iff s [] = (λ e. absurd (false≢true e), λ a. absurd a)
text_in_iff s (t ∷ ts) =
    either_iff (text_eq t s) (text_in s ts)
      (λ e. sym ((text_eq_iff t s).0 e), λ e. (text_eq_iff t s).1 (sym e)) (text_in_iff s ts)

-- The origin of the request is not given, or is listed, or no list is kept.
abbrev pub MayCome : Option Text → List Text → Type 0
MayCome origin allowed =
    (allowed ≡ []) ⊎ (header_or_empty origin ≡ []) ⊎ Listed (header_or_empty origin) allowed

foreign_iff :
    (origin : Option Text) (allowed : List Text)
    → (is_foreign origin allowed ≡ false) ↔ MayCome origin allowed
unfolding is_foreign
foreign_iff origin [] = (λ e. inl refl, λ a. refl)
foreign_iff none (t ∷ ts) = (λ e. inr (inl refl), λ a. refl)
foreign_iff (some []) (t ∷ ts) = (λ e. inr (inl refl), λ a. refl)
foreign_iff (some (c ∷ s)) (t ∷ ts) =
    (λ e. inr (inr ((text_in_iff (c ∷ s) (t ∷ ts)).0 (ground (arith, e)))), back)
  where
    back : MayCome (some (c ∷ s)) (t ∷ ts) → is_foreign (some (c ∷ s)) (t ∷ ts) ≡ false
    back (inl e) = absurd (cc)
    back (inr (inl e)) = absurd (cc)
    back (inr (inr found)) = ground (arith, (text_in_iff (c ∷ s) (t ∷ ts)).1 found)

-- What a rejection leaves of the case where the upgrade goes on.
reject_iff :
    (b : Bool) (text : String) (rest : List Action) (e : Endpoint) {P Q : Type 0}
    → (b ≡ false) ↔ P
    → (rest ≡ upgrade e ∷ []) ↔ Q
    → ((if b then reject_upgrade text else rest) ≡ upgrade e ∷ []) ↔ (P × Q)
reject_iff true text rest e p q = (λ k. absurd (cc), λ h. absurd (false≢true (sym (p.1 h.0))))
reject_iff false text rest e p q = (λ k. (p.0 refl, q.0 k), λ h. q.1 h.1)

not_iff : (b : Bool) {P : Type 0} → (b ≡ true) ↔ P → (not b ≡ false) ↔ P
not_iff true p = (λ e. p.0 refl, λ h. refl)
not_iff false p = (λ e. absurd (false≢true (sym e)), λ h. sym (p.1 h))

equal_iff : (s t : Text) → (not (text_eq s t) ≡ false) ↔ (s ≡ t)
equal_iff s t = not_iff (text_eq s t) (text_eq_iff s t)

differs_iff : (s t : Text) → (text_eq s t ≡ false) ↔ (s ≢ t)
differs_iff s t = (
  λ e k. false≢true (sym e ∙ (text_eq_iff s t).1 k),
  λ k. elim (Bool-cases (text_eq s t)) [
    | inl same ↦ absurd (k ((text_eq_iff s t).0 same))
    | inr differs ↦ differs
  ],
)

upgraded_iff : (e f : Endpoint) → ◌≡◌ {A = List Action} (upgrade f ∷ []) (upgrade e ∷ []) ↔ (e ≡ f)
upgraded_iff e f = (λ k. cc, λ k. cc)

chosen_upgrade_iff :
    (b : Bool) (first second : List Action) (e : Endpoint) {P Q R S : Type 0}
    → (b ≡ true) ↔ P
    → (b ≡ false) ↔ Q
    → (first ≡ upgrade e ∷ []) ↔ R
    → (second ≡ upgrade e ∷ []) ↔ S
    → ((if b then first else second) ≡ upgrade e ∷ []) ↔ ((P × R) ⊎ (Q × S))
chosen_upgrade_iff true first second e {P} {Q} {R} {S} p q r s = (λ k. inl (p.0 refl, r.0 k), back)
  where
    back : (P × R) ⊎ (Q × S) → first ≡ upgrade e ∷ []
    back (inl h) = r.1 h.1
    back (inr h) = absurd (false≢true (sym (q.1 h.0)))
chosen_upgrade_iff false first second e {P} {Q} {R} {S} p q r s = (λ k. inr (q.0 refl, s.0 k), back)
  where
    back : (P × R) ⊎ (Q × S) → second ≡ upgrade e ∷ []
    back (inl h) = absurd (false≢true (p.1 h.0))
    back (inr h) = s.1 h.1

secure_test_iff :
    (encrypted allowed https : Bool) {N P : Type 0}
    → N
    → (https ≡ true) ↔ P
    → ((if encrypted then true else if not allowed then false else https) ≡ true)
      ↔ ((encrypted ≡ true) ⊎ N × (allowed ≡ true) × P)
secure_test_iff true allowed https n p = (λ e. inl refl, λ h. refl)
secure_test_iff false false https {N} {P} n p = (λ e. absurd (false≢true e), back)
  where
    back : (false ≡ true) ⊎ N × (false ≡ true) × P → false ≡ true
    back (inl e) = e
    back (inr h) = h.1
secure_test_iff false true https {N} {P} n p = (λ e. inr (n, refl, p.0 e), back)
  where
    back : (false ≡ true) ⊎ N × (true ≡ true) × P → https ≡ true
    back (inl e) = absurd (false≢true e)
    back (inr h) = p.1 h.2

tls_test_iff :
    (required secure : Bool) {P : Type 0}
    → (secure ≡ true) ↔ P
    → ((required && not secure) ≡ false) ↔ (required ≡ true → P)
tls_test_iff false secure p = (λ e k. absurd (false≢true k), λ h. refl)
tls_test_iff true secure p =
    let negated = not_iff secure p in (λ e k. negated.0 e, λ h. negated.1 (h refl))

module _ (digest : Text → List ℕ) (decode : Text → Text) (other : Text → Option ℕ)
    (url_pathname : Text → Option Text) where
  -- The request came over TLS: to the server, or, as it says, to the trusted proxy that passed it on.
  abbrev pub Secure : Request → List Text → Type 0
  Secure req proxies =
      (req.encrypted ≡ true)
      ⊎ (proxies ≢ [])
        × (is_ip_allowed other req.remote_address proxies ≡ true)
        × (to_lower (trim (first_or_empty (split b',' (header_or_empty req.forwarded_proto))))
            ≡ codes "https")

  Secure-iff :
      (req : Request) (proxies : List Text)
      → (is_agent_request_secure digest decode other url_pathname req proxies ≡ true)
        ↔ Secure req proxies
  unfolding is_agent_request_secure
  Secure-iff req [] = (λ e. inl e, back)
    where
      back : Secure req [] → req.encrypted ≡ true
      back (inl e) = e
      back (inr h) = absurd (h.0 refl)
  Secure-iff req (proxy ∷ proxies) =
      secure_test_iff req.encrypted (is_ip_allowed other req.remote_address (proxy ∷ proxies)) _
        (λ e. cc) (text_eq_iff _ (codes "https"))

  tls_iff :
      (settings : Settings) (req : Request)
      → ((settings.tcp_agent_require_tls
            && not (
                is_agent_request_secure digest decode other url_pathname req
                  settings.tcp_agent_trusted_proxies))
          ≡ false)
        ↔ (settings.tcp_agent_require_tls ≡ true → Secure req settings.tcp_agent_trusted_proxies)
  tls_iff settings req =
      tls_test_iff settings.tcp_agent_require_tls _
        (Secure-iff req settings.tcp_agent_trusted_proxies)

  -- What a request must have to become the connection of an agent, and of a tunnel client.
  abbrev pub ForAgent : Settings → Bool → Request → Type 0
  ForAgent settings agent_wss req =
      (agent_wss ≡ true)
      × (settings.tcp_agent_require_tls ≡ true → Secure req settings.tcp_agent_trusted_proxies)
      × MayCome req.origin settings.tcp_agent_allowed_origins
      × HasCredentials digest decode req.authorization settings.tcp_agent_username
          settings.tcp_agent_password

  abbrev pub ForTunnel : Settings → Text → Request → Type 0
  ForTunnel settings pathname req =
      (pathname ≡ settings.tunnel_path)
      × HasCredentials digest decode req.authorization settings.username settings.password

  abbrev pub Grants : Settings → Bool → Text → Request → Endpoint → Type 0
  Grants settings agent_wss pathname req e =
      (pathname ≡ settings.tcp_agent_path) × (ForAgent settings agent_wss req × (e ≡ agent))
      ⊎ (pathname ≢ settings.tcp_agent_path) × (ForTunnel settings pathname req × (e ≡ tunnel))

  agent_upgrade_iff :
      (settings : Settings) (agent_wss : Bool) (req : Request) (e : Endpoint)
      → (handle_agent_upgrade digest decode other url_pathname settings agent_wss req
          ≡ upgrade e ∷ [])
        ↔ (ForAgent settings agent_wss req × (e ≡ agent))
  unfolding handle_agent_upgrade
  agent_upgrade_iff settings agent_wss req e =
      let granted =
        reject_iff (not agent_wss) not_implemented _ e (not_iff agent_wss (λ k. k, λ k. k)) (
          reject_iff _ upgrade_required _ e (tls_iff settings req) (
            reject_iff _ forbidden _ e (foreign_iff req.origin settings.tcp_agent_allowed_origins) (
              reject_iff _ unauthorized _ e
                (not_iff _ (
                  verify_basic_auth_iff digest decode req.authorization settings.tcp_agent_username
                    settings.tcp_agent_password))
                (upgraded_iff e agent)))) in
      (
        λ k. let (wss, (tls, (come, (has, same)))) = granted.0 k in ((wss, tls, come, has), same),
        λ h. let ((wss, tls, come, has), same) = h in granted.1 (wss, (tls, (come, (has, same)))),
      )

  tunnel_upgrade_iff :
      (settings : Settings) (pathname : Text) (req : Request) (e : Endpoint)
      → ((if not (text_eq pathname settings.tunnel_path)
            then reject_upgrade not_implemented
            else if not (
                verify_basic_auth digest decode req.authorization settings.username
                  settings.password)
            then reject_upgrade unauthorized
            else upgrade tunnel ∷ [])
          ≡ upgrade e ∷ [])
        ↔ (ForTunnel settings pathname req × (e ≡ tunnel))
  tunnel_upgrade_iff settings pathname req e =
      let granted = reject_iff _ not_implemented _ e (equal_iff pathname settings.tunnel_path) (
        reject_iff _ unauthorized _ e
          (not_iff _ (
            verify_basic_auth_iff digest decode req.authorization settings.username
              settings.password))
          (upgraded_iff e tunnel)) in
      (
        λ k. let (here, (has, same)) = granted.0 k in ((here, has), same),
        λ h. let ((here, has), same) = h in granted.1 (here, (has, same)),
      )

  -- `handleUpgrade` hands a request to the WebSocket server of the agents exactly when its path is the
  -- agents', there is such a server, the request came over TLS if that is required, its origin is not
  -- given or may come, and it has the agents' credentials; and to the server of the tunnel clients
  -- exactly when its path is theirs and not the agents', and it has their credentials.
  pub handle_upgrade_iff :
      (settings : Settings) (agent_wss : Bool) (req : Request) (e : Endpoint)
      → (handle_upgrade digest decode other url_pathname settings agent_wss req ≡ upgrade e ∷ [])
        ↔ Grants settings agent_wss (path_or_url (url_pathname req.url) req.url) req e
  unfolding handle_upgrade
  handle_upgrade_iff settings agent_wss req e =
      let pathname = path_or_url (url_pathname req.url) req.url in
      chosen_upgrade_iff _ _ _ e (text_eq_iff pathname settings.tcp_agent_path)
        (differs_iff pathname settings.tcp_agent_path) (agent_upgrade_iff settings agent_wss req e)
        (tunnel_upgrade_iff settings pathname req e)
