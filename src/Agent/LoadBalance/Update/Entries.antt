-- ===== src/Agent/LoadBalance/Update/Entries.antt =====
-- The keys of the entries stay different.
use lars.Base.{
  ℕ, ◌≡◌, refl, sym, ◌∙◌, ap, true, List, [], ◌∷◌, is_empty, ok, IfOk, >>=-IfOk, of_IfOk, inl, inr,
  arith, Bool-cases,
}
use lars.Base.Dict.{distinct, distinct-insert}
use lars.Base.Words.{pair_key}
use lars.Agent.Config.{Config}
use lars.Agent.Messages.{HostAddr, GetRouteResponse}
use lars.Agent.LoadBalance.{LoadBalance}
use lars.Agent.LoadBalance.Update.{
  insert_host, insert_hosts, delete_host, delete_hosts, unlist, update, remote_keys, need_delete,
}

insert_hosts-distinct :
    (cfg : Config) (now : ℕ) (hosts : List HostAddr) (s : LoadBalance)
    → distinct s.host_map ≡ true
    → distinct (insert_hosts cfg now hosts s).host_map ≡ true
unfolding insert_hosts insert_host
insert_hosts-distinct cfg now [] s d = d
insert_hosts-distinct cfg now (a ∷ rest) s d =
    insert_hosts-distinct cfg now rest (insert_host cfg now a s)
      (ground (arith, distinct-insert (pair_key a.ip a.port) s.next_cell s.host_map))

delete_host-host_map :
    (k : ℕ) (s : LoadBalance) {s' : LoadBalance}
    → delete_host k s ≡ ok s'
    → s'.host_map ≡ s.host_map
unfolding delete_host unlist
delete_host-host_map k s e = ground arith

delete_hosts-host_map :
    (ks : List ℕ) (s : LoadBalance) → IfOk (λ s'. s'.host_map ≡ s.host_map) (delete_hosts ks s)
unfolding delete_hosts
delete_hosts-host_map [] s = refl
delete_hosts-host_map (k ∷ ks) s =
    >>=-IfOk (λ (s' : LoadBalance). s'.host_map ≡ s.host_map) (delete_host k s) (delete_hosts ks)
      λ s1 e. rw (sym (delete_host-host_map k s e)) (delete_hosts-host_map ks s1)

pub update-distinct :
    (cfg : Config) (now later : ℕ) (rsp : GetRouteResponse) (s : LoadBalance)
    → distinct s.host_map ≡ true
    → IfOk (λ s'. distinct s'.host_map ≡ true) (update cfg now later rsp s)
unfolding update
update-distinct cfg now later rsp s d = elim (Bool-cases (is_empty rsp.host)) [
  | inl gone ↦ rw gone tt
  | inr given ↦
      let s1 = insert_hosts cfg later rsp.host s in
      rw (given, update)
        (>>=-IfOk (λ (s' : LoadBalance). distinct s'.host_map ≡ true)
          (delete_hosts (need_delete (remote_keys rsp.host) s1.host_map) s1) _
          λ s' e.
            ap distinct (of_IfOk _ _ (delete_hosts-host_map _ s1) e)
            ∙ insert_hosts-distinct cfg later rsp.host s d)
]
