-- ===== src/Sockets/Tests.antt =====
-- A server and a client on one machine, with sockets 3 and 4.
use power_pack.Prelude.Decimal.{print_nat, digits}
use power_pack.Prelude.{
  ℕ, ◌+◌, ◌*◌, ◌/◌, ◌%◌, ◌^◌, ◌-◌, ◌≡◌, refl, true, false, none, some, [], ◌∷◌, ◌++◌, if◌then◌else◌,
  bytes_eq, codes, replicate, arith,
}
use power_pack.Sockets.Pairing.{Meet, tcp_passive_port-netmeter_connect, serv-port}
use power_pack.Sockets.{
  Resolver, Kernel, called_socket, called_connect, set_epipe, af_unix, sock_stream, path, tcp,
  fails, host_address, tcp_connect_serv, tcp_connect_port, netmeter_connect, listen_passive,
  tcp_connect, tcp_passive_serv, tcp_passive_port, udp_passive_serv, udp_passive_port, pipe_connect,
  sun_path,
}

abbrev resolver : Resolver
resolver = record {
  htons = λ p. p % 256 * 256 + p / 256 % 256;
  getservbyname = λ service protocol. if bytes_eq service (codes "http") then some 20480 else none;
  gethostbyname = λ host. if bytes_eq host (codes "localhost") then some 16777343 else none;
  inet_addr = λ host. 2 ^ 32 - 1;
  getprotobyname = λ name. if bytes_eq name tcp then some 6 else some 17;
}

abbrev gives : ℕ → Kernel
gives fd = record {
  socket = λ domain type proto. some fd;
  connect = λ sock to. true;
  bind = λ sock at. true;
  listen = λ sock backlog. true;
}

abbrev refuses : Kernel
refuses = record (gives 5) { connect = λ sock to. false }

-- The socket of a connection that is refused is not closed.
pipe_connect_refused :
    pipe_connect refuses (replicate 108 7) (some (codes "p"))
    ≡ fails (
        called_socket af_unix sock_stream 0
        ∷ called_connect 5 (path (112 ∷ replicate 106 0 ++ 7 ∷ []))
        ∷ set_epipe
        ∷ [])
unfolding pipe_connect sun_path
pipe_connect_refused = refl

served : (tcp_passive_port resolver (gives 3) 8080 5).descriptor ≡ some 3
unfolding tcp_passive_port listen_passive
served = refl

joined : (netmeter_connect resolver (gives 4) (codes "localhost") 8080).descriptor ≡ some 4
unfolding netmeter_connect tcp_connect_port host_address tcp_connect
joined = refl

tcp_passive_port-netmeter_connect_example :
    Meet resolver
      (gives 3)
      (gives 4)
      (codes "localhost")
      5
      3
      4
      (tcp_passive_port resolver (gives 3) 8080 5)
      (netmeter_connect resolver (gives 4) (codes "localhost") 8080)
      36895
tcp_passive_port-netmeter_connect_example =
    tcp_passive_port-netmeter_connect resolver (gives 3) (gives 4) (codes "localhost") 5 3 4 8080
      served joined

unnamed : resolver.getservbyname (print_nat 8080) tcp ≡ none
unfolding print_nat digits
unnamed = refl

serv-port_example :
    (tcp_connect_serv resolver (gives 4) (some (codes "localhost")) (some (print_nat 8080))
      ≡ tcp_connect_port resolver (gives 4) (codes "localhost") 8080)
    × (tcp_passive_serv resolver (gives 4) (print_nat 8080) 5
        ≡ tcp_passive_port resolver (gives 4) 8080 5)
    × (udp_passive_serv resolver (gives 4) (print_nat 8080)
        ≡ udp_passive_port resolver (gives 4) 8080)
serv-port_example =
    serv-port resolver (gives 4) (codes "localhost") 8080 5 unnamed unnamed (omega arith)
      (omega arith)
