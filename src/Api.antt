-- ===== src/Api.antt =====
-- class lars_client (api/cpp/lars_api/lars_api.cpp): what a program calls. The sockets are numbered
-- as the agent's UDP servers are. `Text` are the dotted addresses; `inet_ntoa`, `inet_aton` and
-- `ntohl` are those of the C library. What `sendto` and `recvfrom` answer is an argument.
pub mod Matching
pub mod Addresses
pub mod Retries
mod Tests
use lars.Base.{
  ℕ, zero, suc, ◌+◌, Bool, true, false, not, ◌||◌, ◌&&◌, List, [], ◌∷◌, ◌++◌, Option, none, some,
  if◌then◌else◌, ltb, ◌==◌, is_empty, Result, ok, ◌>>=◌,
}
use lars.Base.Words.{inc32}
use lars.Agent.Messages.{
  HostAddr, GetHostRequest, GetHostResponse, GetRouteRequest, GetRouteResponse, ReportRequest,
  ret_succ, ret_system_error, ret_noexist,
}
use lars.Agent.Wiring.{shard}

abbrev pub id_get_host_response : ℕ
id_get_host_response = 5

abbrev pub id_api_get_route_response : ℕ
id_api_get_route_response = 8

pub record LarsClient : Type 0 where
  pub seqid : ℕ

unfoldable pub new_lars_client : LarsClient
new_lars_client = record { seqid = 0 }

-- What `recvfrom` answers: an error, or a datagram with the id of its head and the message that its
-- body is read as, `none` where the parser refuses it.
pub data Received (A : Type 0) : Type 0 where
  broken : Received A
  packet : ℕ → Option A → Received A

-- What the wait of `get_host` ends in: no datagram is left and the call blocks, an error that was
-- printed, or a response.
pub data Awaited : Type 0 where
  blocks refused : Awaited
  response : GetHostResponse → Awaited

-- The loop of `get_host`.
unfoldable pub await_response : ℕ → List (Received GetHostResponse) → Awaited
await_response seq [] = blocks
await_response seq (broken ∷ rs) = refused
await_response seq (packet msgid none ∷ rs) = refused
await_response seq (packet msgid (some rsp) ∷ rs) =
    let later = await_response seq rs in
    if not (msgid == id_get_host_response)
    then refused
    else if ltb rsp.seq seq
    then later
    else response rsp

-- What `get_host` returns, and the address that it writes, if any.
pub data Returned (Text : Type 0) : Type 0 where
  never : Returned Text
  returns : ℕ → Option (Text × ℕ) → Returned Text

-- Is it the response to this request?
abbrev pub answers : GetHostRequest → GetHostResponse → Bool
answers req rsp = (rsp.seq == req.seq) && (rsp.modid == req.modid) && (rsp.cmdid == req.cmdid)

-- The request that a call sends, and the number of the socket.
pub record Asked (A : Type 0) : Type 0 where
  pub request : A
  pub index : ℕ

module _ {Text : Type 0} (inet_ntoa : ℕ → Text) where
  -- The address of a host as `get_host` writes it.
  abbrev pub host_address : HostAddr → Text × ℕ
  host_address h = (inet_ntoa h.ip, h.port)

  settle : GetHostRequest → Awaited → Returned Text
  settle req blocks = never
  settle req refused = returns ret_system_error none
  settle req (response rsp) =
      if answers req rsp
      then returns rsp.retcode
          (if rsp.retcode == ret_succ then some (host_address rsp.host) else none)
      else returns ret_system_error none

  unfoldable pub get_host :
      Bool
      → List (Received GetHostResponse)
      → ℕ
      → ℕ
      → LarsClient
      → Result (Asked GetHostRequest × Returned Text × LarsClient)
  unfolding settle await_response
  get_host sent rs modid cmdid c = do
    index ← shard modid cmdid
    let req : GetHostRequest = record { seq = c.seqid; modid = modid; cmdid = cmdid }
    ok (
      record { request = req; index = index },
      (if sent then settle req (await_response req.seq rs) else returns ret_system_error none),
      record { seqid = inc32 c.seqid },
    )

-- `report`: the message that is sent.
unfoldable pub report :
    {Text : Type 0} → (Text → ℕ) → ℕ → ℕ → Text → ℕ → ℕ → Result (Asked ReportRequest)
report inet_aton modid cmdid ip port retcode = do
  index ← shard modid cmdid
  ok (record {
    request = record {
      modid = modid;
      cmdid = cmdid;
      host = record { ip = inet_aton ip; port = port };
      retcode = retcode;
    };
    index = index;
  })

module _ {Text : Type 0} (inet_ntoa : ℕ → Text) (ntohl : ℕ → ℕ) where
  -- The address of a host as `get_route` appends it.
  abbrev pub route_address : HostAddr → Text × ℕ
  route_address h = (inet_ntoa (ntohl h.ip), h.port)

  all_addresses : List HostAddr → List (Text × ℕ)
  all_addresses [] = []
  all_addresses (h ∷ hs) = route_address h ∷ all_addresses hs

  -- What `get_route` makes of the answer: what it returns, and what it appends to `route`.
  read_route : Bool → Received GetRouteResponse → ℕ → ℕ → ℕ × List (Text × ℕ)
  unfolding all_addresses
  read_route false answer modid cmdid = (ret_system_error, [])
  read_route true broken modid cmdid = (ret_system_error, [])
  read_route true (packet msgid none) modid cmdid = (ret_system_error, [])
  read_route true (packet msgid (some rsp)) modid cmdid =
      if not (msgid == id_api_get_route_response)
        || not (rsp.modid == modid)
        || not (rsp.cmdid == cmdid)
      then (ret_system_error, [])
      else (ret_succ, all_addresses rsp.host)

  unfoldable pub get_route : Bool → Received GetRouteResponse → ℕ → ℕ → Result (ℕ × List (Text × ℕ))
  unfolding read_route
  get_route sent answer modid cmdid = do
    index ← shard modid cmdid
    ok (read_route sent answer modid cmdid)

  -- The loop of `reg_init`: what `route` is in the end. `env k` is what happens to the `k`-th try.
  retry : ℕ → ℕ → (ℕ → Bool × Received GetRouteResponse) → ℕ → ℕ → Result (List (Text × ℕ))
  unfolding get_route
  retry zero k env modid cmdid = ok []
  retry (suc n) k env modid cmdid =
      let again = retry n (k + 1) env modid cmdid in
      get_route (env k).0 (env k).1 modid cmdid >>= λ o. if is_empty o.1 then again else ok o.1

  unfoldable pub reg_init : (ℕ → Bool × Received GetRouteResponse) → ℕ → ℕ → Result ℕ
  unfolding retry
  reg_init env modid cmdid = do
    route ← retry 3 0 env modid cmdid
    ok (if is_empty route then ret_noexist else ret_succ)
