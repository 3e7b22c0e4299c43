-- ===== src/Sockets/Pairing.antt =====
-- The sockets of connectsock.c and passivesock.c that meet: the same service, the same port.
use power_pack.Prelude.Decimal.{atoi, print_nat, atoi-print_nat, digits_value}
use power_pack.Prelude.Int.{pos}
use power_pack.Prelude.{
  ℕ, ◌%◌, ◌^◌, ◌<◌, ◌≡◌, ◌≢◌, refl, ap, subst, sym, ◌∙◌, true, none, some, List, [], ◌∷◌, inl, inr,
  Bytes, arith, Option-cases, append-nil,
}
use power_pack.Sockets.{
  Resolver, Kernel, Returned, SocketCall, SocketAddress, called_socket, called_connect, called_bind,
  called_listen, pf_inet, sock_stream, inet, tcp, udp, ushort, host_address, service_port,
  connected, bound, tcp_connect, listen_passive, tcp_connect_serv, tcp_connect_port,
  netmeter_connect, tcp_passive_serv, tcp_passive_port, udp_passive_serv, udp_passive_port,
}

-- A connection that succeeds, and what was asked of the kernel for it.
module _ (k : Kernel) (proto : ℕ) (at : SocketAddress) where
  connected-some :
      (refused : List SocketCall) (fd : ℕ)
      → (connected k refused pf_inet sock_stream proto at).descriptor ≡ some fd
      → ((connected k refused pf_inet sock_stream proto at).calls
          ≡ called_socket pf_inet sock_stream proto ∷ called_connect fd at ∷ [])
        × (k.connect fd at ≡ true)
  connected-some refused fd h = ground arith

  bound-some :
      (backlog fd : ℕ)
      → (bound k pf_inet sock_stream proto at backlog).descriptor ≡ some fd
      → ((bound k pf_inet sock_stream proto at backlog).calls
          ≡ called_socket pf_inet sock_stream proto
            ∷ called_bind fd at
            ∷ called_listen fd backlog
            ∷ [])
        × (k.bind fd at ≡ true)
        × (k.listen fd backlog ≡ true)
  bound-some backlog fd h = ground arith

-- What the calls of a server and of a client have asked of their kernels when they meet: the server has
-- bound its descriptor, at any address, to the port that the client has connected its own to, both are streams
-- of the same protocol, the address of the client is the one the host stands for, and every call succeeded.
abbrev pub Meet : Resolver → Kernel → Kernel → Bytes → ℕ → ℕ → ℕ → Returned → Returned → ℕ → Type 0
Meet r server client host backlog fd fd' listening connecting port =
    (address : ℕ) × (proto : ℕ) × (host_address r host ≡ some address)
    × (listening.calls
        ≡ called_socket pf_inet sock_stream proto
          ∷ called_bind fd (inet 0 port)
          ∷ called_listen fd backlog
          ∷ [])
    × (server.bind fd (inet 0 port) ≡ true)
    × (server.listen fd backlog ≡ true)
    × (connecting.calls
        ≡ called_socket pf_inet sock_stream proto ∷ called_connect fd' (inet address port) ∷ [])
    × (client.connect fd' (inet address port) ≡ true)

module _ (r : Resolver) (server client : Kernel) (host : Bytes) (backlog fd fd' : ℕ) where
  meet :
      (port : ℕ)
      → (listen_passive r server port tcp backlog).descriptor ≡ some fd
      → (tcp_connect r client host port tcp).descriptor ≡ some fd'
      → Meet r server client host backlog fd fd'
          (listen_passive r server port tcp backlog)
          (tcp_connect r client host port tcp)
          port
  unfolding listen_passive tcp_connect
  meet port h h' = elim (Option-cases (r.getprotobyname tcp)) [
    | inl f ↦ absurd (ground (arith, f, h))
    | inr (proto, f) ↦ elim (Option-cases (host_address r host)) [
      | inl g ↦ absurd (ground (arith, f, g, h'))
      | inr (address, g) ↦
          let listens : listen_passive r server port tcp backlog
              ≡ bound server pf_inet sock_stream proto (inet 0 port) backlog =
            rw (listen_passive, f) refl in
          let connects : tcp_connect r client host port tcp
              ≡ connected client [] pf_inet sock_stream proto (inet address port) =
            rw (tcp_connect, g, f) refl in
          let s =
            bound-some server proto (inet 0 port) backlog fd
              (sym (ap (λ x. x.descriptor) listens) ∙ h) in
          let c =
            connected-some client proto (inet address port) [] fd'
              (sym (ap (λ x. x.descriptor) connects) ∙ h') in
          (
            address,
            proto,
            g,
            ap (λ x. x.calls) listens ∙ s.0,
            s.1,
            s.2,
            ap (λ x. x.calls) connects ∙ c.0,
            c.1,
          )
    ]
  ]

  -- When a server listens on a port and a client connects to the same port of a host, both with success and
  -- whatever else their kernels answer, they meet: the server has bound a stream socket at any
  -- address to the port in network order, and listens on it; the client has connected a stream socket of the
  -- same protocol to that port at the address that the host stands for.
  pub tcp_passive_port-netmeter_connect :
      (port : ℕ)
      → (tcp_passive_port r server port backlog).descriptor ≡ some fd
      → (netmeter_connect r client host port).descriptor ≡ some fd'
      → Meet r server client host backlog fd fd'
          (tcp_passive_port r server port backlog)
          (netmeter_connect r client host port)
          (r.htons port)
  unfolding tcp_passive_port netmeter_connect tcp_connect_port
  tcp_passive_port-netmeter_connect port h h' = meet (r.htons port) h h'

  -- The same for a service, on the port that it stands for.
  tcp_passive_serv-tcp_connect_serv :
      (service : Bytes)
      → (tcp_passive_serv r server service backlog).descriptor ≡ some fd
      → (tcp_connect_serv r client (some host) (some service)).descriptor ≡ some fd'
      → (port : ℕ) × (service_port r service tcp ≡ some port)
        × Meet r server client host backlog fd fd'
            (tcp_passive_serv r server service backlog)
            (tcp_connect_serv r client (some host) (some service))
            port
  unfolding tcp_passive_serv tcp_connect_serv
  tcp_passive_serv-tcp_connect_serv service h h' =
      elim (Option-cases (service_port r service tcp)) [
        | inl e ↦ absurd (ground (arith, e, h))
        | inr (port, e) ↦
            let at_port : tcp_passive_serv r server service backlog
                ≡ listen_passive r server port tcp backlog =
              rw (tcp_passive_serv, e) refl in
            let to_port : tcp_connect_serv r client (some host) (some service)
                ≡ tcp_connect r client host port tcp =
              rw (tcp_connect_serv, e) refl in
            let both =
              meet port (sym (ap (λ x. x.descriptor) at_port) ∙ h)
                (sym (ap (λ x. x.descriptor) to_port) ∙ h') in
            (
              port,
              e,
              subst
                  (λ l.
                    Meet r server client host backlog fd fd' l
                      (tcp_connect_serv r client (some host) (some service)) port)
                  (sym at_port)
                  (subst
                    (λ c.
                      Meet r server client host backlog fd fd'
                        (listen_passive r server port tcp backlog) c port)
                    (sym to_port) both),
            )
      ]

-- The port of a service that is given as a number.
service_port-print_nat :
    (r : Resolver) (protocol : Bytes) (port : ℕ)
    → r.getservbyname (print_nat port) protocol ≡ none
    → r.htons port ≢ 0
    → port < 2 ^ 16
    → service_port r (print_nat port) protocol ≡ some (r.htons port)
unfolding service_port ushort digits_value
service_port-print_nat r protocol port h ne small =
    let whole : atoi (print_nat port) ≡ pos port =
      subst (λ t. atoi t ≡ pos port) (append-nil (print_nat port))
        (atoi-print_nat port [] (omega arith)) in
    let kept : port % 65536 ≡ port = omega arith in
    rw (service_port, h) (rw (whole, ushort) (rw kept (ground arith)))

-- For a number that the services database does not hold as a name, the calls that take the text of a
-- service do what those that take its port do, when the port fits 16 bits and is not 0 in network order.
pub serv-port :
    (r : Resolver) (k : Kernel) (host : Bytes) (port backlog : ℕ)
    → r.getservbyname (print_nat port) tcp ≡ none
    → r.getservbyname (print_nat port) udp ≡ none
    → r.htons port ≢ 0
    → port < 2 ^ 16
    → (tcp_connect_serv r k (some host) (some (print_nat port)) ≡ tcp_connect_port r k host port)
      × (tcp_passive_serv r k (print_nat port) backlog ≡ tcp_passive_port r k port backlog)
      × (udp_passive_serv r k (print_nat port) ≡ udp_passive_port r k port)
unfolding tcp_connect_serv tcp_connect_port tcp_passive_serv tcp_passive_port udp_passive_serv
    udp_passive_port
serv-port r k host port backlog ht hu ne small =
    let t = service_port-print_nat r tcp port ht ne small in
    let u = service_port-print_nat r udp port hu ne small in
    (rw (tcp_connect_serv, t) refl, rw (tcp_passive_serv, t) refl, rw (udp_passive_serv, u) refl)
