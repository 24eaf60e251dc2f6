-- ===== src/Reactor/UdpClient/SameCalls.antt =====
-- udp_client reads datagrams as udp_server does.
use lars.Base.{ℕ, ◌≡◌, refl, ap, sym, ◌∙◌, List, [], ◌∷◌, ◌++◌, Option, none, some, map}
use lars.Reactor.MsgRouter.{Handled}
use lars.Reactor.Udp.{
  UdpServer, Delivered, deliver, Received, interrupted, again, broken, datagram, receive,
}
use lars.Reactor.Udp
use lars.Reactor.UdpClient.{handled_list, do_read}

module _ {C A : Type 0} where
  map-deliver :
      (from : ℕ) (h : Option (Handled C A)) (rest : List (Delivered C A))
      → map (λ (d : Delivered C A). d.handled) (deliver from h ++ rest)
        ≡ handled_list h ++ map (λ (d : Delivered C A). d.handled) rest
  map-deliver from none rest = refl
  map-deliver from (some h) rest = refl

  -- The client makes the calls that a server with the same buffer and the same router makes.
  pub do_read-do_read :
      (rs : List Received) (u : UdpServer C A)
      → (do_read rs (record { read_buf = u.read_buf; router = u.router })).0
        ≡ map (λ (d : Delivered C A). d.handled) (Udp.do_read rs u).0
  unfolding do_read Udp.do_read
  do_read-do_read [] u = refl
  do_read-do_read (interrupted ∷ rs) u = do_read-do_read rs u
  do_read-do_read (again ∷ rs) u = refl
  do_read-do_read (broken ∷ rs) u = refl
  do_read-do_read (datagram from bytes ∷ rs) u =
      ap (◌++◌ (handled_list _)) (do_read-do_read rs _)
      ∙ sym (map-deliver from _ (Udp.do_read rs _).0)
