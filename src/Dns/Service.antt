-- ===== src/Dns/Service.antt =====
-- The business of lars_dns (lars_dns/src/dns_service.cpp): the request for a route and the two hooks
-- of a connection. `parse` of the request and the sending of the response are protobuf and reactor.
pub mod Hooks
use lars.Base.{
  ℕ, Bool, true, false, List, [], ◌∷◌, Option, none, some, if◌then◌else◌, Result, ok, fault,
  null_pointer,
}
use lars.Base.Sets.{contains}
use lars.Base.Words.{pair_key}
use lars.Agent.Messages.{GetRouteResponse}
use lars.Dns.Route.{Route}
use lars.Dns.Subscribe.{SubscribeList, subscribe, unsubscribe, route_response}

-- What the service keeps of a connection: `param` is its set of subscribed modules, or NULL.
pub record Conn : Type 0 where
  pub fd : ℕ
  pub param : Option (List ℕ)

unfoldable pub create_subscribe : Conn → Conn
create_subscribe conn = record conn { param = some [] }

-- `modid` and `cmdid` are the 32-bit patterns of the request's fields.
unfoldable pub get_route :
    Route → ℕ → ℕ → Conn → SubscribeList → GetRouteResponse × Conn × SubscribeList
get_route r modid cmdid conn s =
    let mod_key = pair_key modid cmdid in
    let rsp = route_response r modid cmdid in
    elim conn.param [
      | none ↦ (rsp, conn, s)
      | some sub_list ↦
          if contains mod_key sub_list
          then (rsp, conn, s)
          else (rsp, record conn { param = some (mod_key ∷ sub_list) }, subscribe mod_key conn.fd s)
    ]

-- The loop of `clear_subscribe`.
unfoldable pub unsubscribe_all : List ℕ → ℕ → SubscribeList → SubscribeList
unsubscribe_all [] fd s = s
unsubscribe_all (m ∷ ms) fd s = unsubscribe_all ms fd (unsubscribe m fd s)

unfoldable pub clear_subscribe : Conn → SubscribeList → Result (Conn × SubscribeList)
unfolding unsubscribe_all
clear_subscribe conn s = elim conn.param [
  | none ↦ fault null_pointer
  | some sub_list ↦ ok (record conn { param = none }, unsubscribe_all sub_list conn.fd s)
]
