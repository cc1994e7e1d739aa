-- ===== src/Server/Dialled.antt =====
-- cmd/relay-core: the hosts that a request to the server can lead to.
use test_enclave_newapi.Common.{
  ◌≡◌, refl, inl, inr, true, List, [], ◌∷◌, ◌++◌, Option, some, any, or-eq-true, All,
}
use test_enclave_newapi.Text.{Bytes, codes, str_eq, has_prefix}
use test_enclave_newapi.Text.Laws.{eq_of_str_eq, has_prefix_sound}
use test_enclave_newapi.Url.Percent.{other, unescape}
use test_enclave_newapi.Official.Paths.{OneSlash}
use test_enclave_newapi.Relay.World.{World}
use test_enclave_newapi.Relay.Dialled.{CallsChannelled, serve_relay-Channelled}
use test_enclave_newapi.Enclave.{Cert}
use test_enclave_newapi.Server.Listed.{api_paths, is_listed}
use test_enclave_newapi.Server.Handler.{Incoming, serve_http}
use test_enclave_newapi.Server.Reach.{dealings, serve_http-reach}

api_paths-OneSlash : All OneSlash api_paths
unfolding has_prefix
api_paths-OneSlash = (
  (_, refl, refl),
  ((_, refl, refl), ((_, refl, refl), ((_, refl, refl), ((_, refl, refl), ((_, refl, refl), tt))))),
)

any-OneSlash :
    (ps : List Bytes) (path : Bytes)
    → All OneSlash ps
    → any (λ p. str_eq path p) ps ≡ true
    → OneSlash path
any-OneSlash [] path k h = absurd (cc h)
any-OneSlash (p ∷ ps) path (k, ks) h =
    elim (or-eq-true (str_eq path p) (any (λ q. str_eq path q) ps) h) [
      | inl y ↦ rw (eq_of_str_eq path p y) k
      | inr y ↦ any-OneSlash ps path ks y
    ]

listed-OneSlash : (path : Bytes) → is_listed path ≡ true → OneSlash path
unfolding has_prefix
listed-OneSlash path h =
    elim (or-eq-true (any (λ p. str_eq path p) api_paths)
      (has_prefix path (codes "/v1beta/models/")) h) [
        | inl y ↦ any-OneSlash api_paths path api_paths-OneSlash y
        | inr y ↦
            let (r, e) = has_prefix_sound path (codes "/v1beta/models/") y in
            (codes "v1beta/models/" ++ r, e, refl)
      ]

-- Whatever a client sends, the control plane answers and the upstream does, every request that the
-- server hands to its HTTP client, for a path that is decoded from the escaped path that starts with a
-- slash, is for the channel that the control plane has answered this client request's question with, and
-- its URL has the https scheme and the host that is pinned for the channel's type, or a host text that
-- the family rule of the type accepts, or the https scheme and the Bedrock host of a region, or no host
-- at all. It is the URL that is handed over: a redirect that the client follows is not among the calls,
-- and the host text may be an IPv6 address with a zone.
pub serve_http-Channelled :
    (w : World) (cert : Option Cert) (i : Incoming)
    → has_prefix i.escaped_path (codes "/") ≡ true
    → unescape other i.escaped_path ≡ some i.relayed.path
    → All (CallsChannelled w i.relayed) (dealings (serve_http w cert i))
serve_http-Channelled w cert i s u = elim (serve_http-reach w cert i s u) [
  | inr e ↦ rw e tt
  | inl r ↦ rw r.same (serve_relay-Channelled w i.relayed (listed-OneSlash i.relayed.path r.listed))
]
