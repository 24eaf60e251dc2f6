-- ===== src/Api/Matching.antt =====
-- Which response `get_host` takes, alone and with the agent.
use lars.Base.{
  ℕ, ◌<◌, ◌≤◌, ◌≡◌, ◌≢◌, ◌⊎◌, refl, true, List, [], ◌∷◌, ◌++◌, none, some, if◌then◌else◌, ◌==◌, ok,
  arith,
}
use lars.Base.Words.{inc32}
use lars.Agent.Config.{Config}
use lars.Agent.Messages.{GetHostResponse, ret_succ, ret_system_error}
use lars.Agent.Wiring.{Agent, shard, get_host_cb}
use lars.Agent.Wiring.Echo.{get_host_cb-answers}
use lars.Api.{
  LarsClient, Received, packet, await_response, Returned, returns, get_host, settle, host_address,
  id_get_host_response,
}

-- Datagrams with these responses.
abbrev pub packets : List GetHostResponse → List (Received GetHostResponse)
packets [] = []
packets (rsp ∷ rs) = packet id_get_host_response (some rsp) ∷ packets rs

-- Responses to earlier requests.
abbrev pub AllStale : ℕ → List GetHostResponse → Type 0
AllStale seq [] = Unit {0}
AllStale seq (rsp ∷ rs) = (rsp.seq < seq) × AllStale seq rs

await_response-packets :
    (seq : ℕ) (old : List GetHostResponse) (rs : List (Received GetHostResponse))
    → AllStale seq old
    → await_response seq (packets old ++ rs) ≡ await_response seq rs
unfolding await_response
await_response-packets seq [] rs stale = refl
await_response-packets seq (rsp ∷ old) rs stale =
    ground (arith, await_response-packets seq old rs stale.1)

module _ {Text : Type 0} (inet_ntoa : ℕ → Text) where
  -- The call of `get_host` that gets these datagrams, and what it returns.
  abbrev pub Gives :
      List (Received GetHostResponse) → ℕ → ℕ → ℕ → LarsClient → Returned Text → Type 0
  Gives rs index modid cmdid c out =
      get_host inet_ntoa true rs modid cmdid c
      ≡ ok (
        record { request = record { seq = c.seqid; modid = modid; cmdid = cmdid }; index = index },
        out,
        record { seqid = inc32 c.seqid },
      )

  -- Responses to earlier requests, with smaller numbers, are passed over. The first one whose number is
  -- not below the request's decides. With the request's number, modid and cmdid, and success as its code,
  -- it gives success with its host's address; with another code it gives that code and no host. If its
  -- number, its modid or its cmdid is another, the call ends in a system error. The ids of the request
  -- are to have an index.
  pub get_host_lem :
      (old : List GetHostResponse) (rsp : GetHostResponse) (rs : List (Received GetHostResponse))
      (index modid cmdid : ℕ) (c : LarsClient)
      → shard modid cmdid ≡ ok index
      → AllStale c.seqid old
      → c.seqid ≤ rsp.seq
      → (rsp.seq ≡ c.seqid
          → rsp.modid ≡ modid
          → rsp.cmdid ≡ cmdid
          → rsp.retcode ≡ ret_succ
          → Gives
              (packets old ++ packet id_get_host_response (some rsp) ∷ rs)
              index
              modid
              cmdid
              c
              (returns ret_succ (some (inet_ntoa rsp.host.ip, rsp.host.port))))
        × (rsp.seq ≡ c.seqid
            → rsp.modid ≡ modid
            → rsp.cmdid ≡ cmdid
            → rsp.retcode ≢ ret_succ
            → Gives
                (packets old ++ packet id_get_host_response (some rsp) ∷ rs)
                index
                modid
                cmdid
                c
                (returns rsp.retcode none))
        × ((rsp.seq ≢ c.seqid) ⊎ ((rsp.modid ≢ modid) ⊎ (rsp.cmdid ≢ cmdid))
            → Gives
                (packets old ++ packet id_get_host_response (some rsp) ∷ rs)
                index
                modid
                cmdid
                c
                (returns ret_system_error none))
  unfolding get_host settle await_response
  get_host_lem old rsp rs index modid cmdid c own stale now =
      let skip =
        await_response-packets c.seqid old (packet id_get_host_response (some rsp) ∷ rs) stale in
      (
        λ eseq em ec ok0. rw (own, get_host) (rw skip (ground arith)),
        λ eseq em ec bad. rw (own, get_host) (rw skip (ground arith)),
        λ other. rw (own, get_host) (rw skip (ground arith)),
      )

  -- `get_host` with the agent's response to its own request, behind responses to earlier ones: the
  -- code of the agent's response is returned, and its host exactly on success.
  pub get_host-get_host_cb :
      (cfg : Config) (t index modid cmdid : ℕ) (s : Agent) (old : List GetHostResponse)
      (c : LarsClient) {o : GetHostResponse × Agent}
      → shard modid cmdid ≡ ok index
      → get_host_cb cfg t index (record { seq = c.seqid; modid = modid; cmdid = cmdid }) s ≡ ok o
      → AllStale c.seqid old
      → get_host inet_ntoa true
          (packets old ++ packet id_get_host_response (some o.0) ∷ [])
          modid
          cmdid
          c
        ≡ ok (
          record {
            request = record { seq = c.seqid; modid = modid; cmdid = cmdid };
            index = index;
          },
          returns o.0.retcode
              (if o.0.retcode == ret_succ then some (host_address inet_ntoa o.0.host) else none),
          record { seqid = inc32 c.seqid },
        )
  unfolding get_host settle await_response
  get_host-get_host_cb cfg t index modid cmdid s old c {o} own ran stale =
      let e =
        get_host_cb-answers cfg t index (record { seq = c.seqid; modid = modid; cmdid = cmdid }) s
          ran in
      rw (own, get_host)
        (rw (await_response-packets c.seqid old (packet id_get_host_response (some o.0) ∷ []) stale)
          (ground (arith, e.0, e.1, e.2)))
