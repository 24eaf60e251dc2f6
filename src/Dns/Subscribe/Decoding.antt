-- ===== src/Dns/Subscribe/Decoding.antt =====
-- From the rows of the database to the hosts in a response, through the 64-bit keys.
use lars.Base.{
  ℕ, ◌<◌, ◌^◌, ◌≡◌, ap, ◌∙◌, Bool, true, false, ◌&&◌, ◌||◌, List, [], ◌∷◌, some, ok, inl, inr, ◌==◌,
  arith, Bool-cases,
}
use lars.Base.Sets.{contains}
use lars.Base.Words.{pair_key, key_hi, key_lo, key_hi-pair_key, key_lo-pair_key}
use lars.Agent.Messages.{HostAddr}
use lars.Dns.Route.{Row, Route, get_hosts, load_route_data, swap}
use lars.Dns.Route.Loading.{mem_row, IsRow, AllRows, get_hosts-loaded}
use lars.Dns.Subscribe.{route_response, decode_hosts}

-- Is the host in the list?
abbrev pub has_host : ℕ → ℕ → List HostAddr → Bool
has_host ip port [] = false
has_host ip port (h ∷ hs) = ((h.ip == ip) && (h.port == port)) || has_host ip port hs

pub has_host-decode_hosts :
    (v : ℕ) (vs : List ℕ)
    → contains v vs ≡ true
    → has_host (key_hi v) (key_lo v) (decode_hosts vs) ≡ true
unfolding decode_hosts contains
has_host-decode_hosts v [] h = ground arith
has_host-decode_hosts v (w ∷ ws) h = elim (Bool-cases (w == v)) [
  | inl same ↦ let e : w ≡ v = ground arith in ground (arith, ap key_hi e, ap key_lo e)
  | inr other ↦ ground (arith, has_host-decode_hosts v ws (ground arith))
]

-- A row of the database whose port is not negative: once the rows are loaded and swapped in, the
-- response for the row's module has the row's host.
pub has_host-route_response :
    (rows : List Row) (a : Row) (r : Route) {r' : Route}
    → AllRows rows
    → IsRow a
    → a.port < 2 ^ 31
    → load_route_data (some rows) r ≡ ok r'
    → mem_row a rows ≡ true
    → has_host a.ip a.port (route_response (swap r') a.modid a.cmdid).host ≡ true
unfolding route_response
has_host-route_response rows a r {r'} all i small loaded there = ground (
  arith,
  has_host-decode_hosts (pair_key a.ip a.port) (get_hosts (swap r') a.modid a.cmdid)
      (get_hosts-loaded rows a r all i loaded ∙ there),
  key_hi-pair_key a.ip a.port i.2 small,
  key_lo-pair_key a.ip a.port i.2 i.3,
)
