-- ===== src/Api/Addresses.antt =====
-- A report on a host, by the address that the program was given.
use lars.Base.{ℕ, ◌^◌, ◌<◌, ◌≡◌, ◌≢◌, refl, ok}
use lars.Base.Words.{pair_key, pair_key-injective}
use lars.Agent.Messages.{HostAddr, ReportRequest}
use lars.Agent.Wiring.{shard}
use lars.Api.{Asked, report, host_address, route_address}

module _ {Text : Type 0} (inet_ntoa : ℕ → Text) (inet_aton : Text → ℕ) (ntohl : ℕ → ℕ)
    (reads_back : (a : ℕ) → a < 2 ^ 32 → inet_aton (inet_ntoa a) ≡ a)
    (is_word : (a : ℕ) → a < 2 ^ 32 → ntohl a < 2 ^ 32) where
  -- A report on a host that `get_host` gave names this very host. A report on one that `get_route`
  -- gave names another key, unless `ntohl` leaves the address as it is, so that the agent does not
  -- find the host.
  pub report_lem :
      (modid cmdid retcode index : ℕ) (h : HostAddr)
      → shard modid cmdid ≡ ok index
      → h.ip < 2 ^ 32
      → h.port < 2 ^ 32
      → let by_host = host_address inet_ntoa h in
        let by_route = route_address inet_ntoa ntohl h in
        (report inet_aton modid cmdid by_host.0 by_host.1 retcode
          ≡ ok (record {
            request = record { modid = modid; cmdid = cmdid; host = h; retcode = retcode };
            index = index;
          }))
        × (ntohl h.ip ≢ h.ip
            → (r : Asked ReportRequest) × (report inet_aton modid cmdid by_route.0 by_route.1
                  retcode
                ≡ ok r)
              × (pair_key r.request.host.ip r.request.host.port ≢ pair_key h.ip h.port))
  unfolding report
  report_lem modid cmdid retcode index h own ip port = (
    rw (own, report) (rw (reads_back h.ip ip) refl),
    λ differs. (
      record {
        request = record {
          modid = modid;
          cmdid = cmdid;
          host = record { ip = inet_aton (inet_ntoa (ntohl h.ip)); port = h.port };
          retcode = retcode;
        };
        index = index;
      },
      rw (own, report) refl,
      λ same.
          differs
            (pair_key-injective (ntohl h.ip) h.port h.ip h.port (is_word h.ip ip) port ip port
              (rw (reads_back (ntohl h.ip) (is_word h.ip ip)) at same)).0,
    ),
  )
