-- ===== src/Sockets.antt =====
-- old/metertools/src/support/connectsock.c and passivesock.c: sockets that connect and sockets
-- that listen; netmeter_connect of mapi/netmeter.c.
-- A descriptor of -1 is `none`. What is printed to stderr is left out.
pub mod Tests
pub mod Pairing
use power_pack.Prelude.Decimal.{atoi}
use power_pack.Prelude.Int.{ℤ, pos, negsuc}
use power_pack.Prelude.{
  ℕ, ◌-◌, ◌%◌, ◌^◌, Bool, true, false, Option, none, some, List, [], ◌∷◌, ◌++◌, ◌==◌, if◌then◌else◌,
  take, drop, replicate, Bytes, bytes_eq, codes,
}

-- What the C library says of names and numbers: htons, getservbyname with the port in network order,
-- gethostbyname with its first address, inet_addr and getprotobyname.
pub record Resolver : Type 0 where
  pub htons : ℕ → ℕ
  pub getservbyname : Bytes → Bytes → Option ℕ
  pub gethostbyname : Bytes → Option ℕ
  pub inet_addr : Bytes → ℕ
  pub getprotobyname : Bytes → Option ℕ

pub data Domain : Type 0 where
  af_unix pf_inet : Domain

pub data SocketType : Type 0 where
  sock_stream sock_dgram : SocketType

-- `inet address port` with both in network order, or the bytes of a path.
pub data SocketAddress : Type 0 where
  inet : ℕ → ℕ → SocketAddress
  path : Bytes → SocketAddress

-- What a kernel answers: whether a call succeeds, and the new descriptor.
pub record Kernel : Type 0 where
  pub socket : Domain → SocketType → ℕ → Option ℕ
  pub connect : ℕ → SocketAddress → Bool
  pub bind : ℕ → SocketAddress → Bool
  pub listen : ℕ → ℕ → Bool

-- The calls made of a kernel, and the values stored in errno.
pub data SocketCall : Type 0 where
  called_socket : Domain → SocketType → ℕ → SocketCall
  called_connect called_bind : ℕ → SocketAddress → SocketCall
  called_listen : ℕ → ℕ → SocketCall
  set_einval set_epipe : SocketCall

pub record Returned : Type 0 where
  pub calls : List SocketCall
  pub descriptor : Option ℕ

abbrev pub fails : List SocketCall → Returned
fails calls = record { calls = calls; descriptor = none }

abbrev pub tcp : Bytes
tcp = codes "tcp"

abbrev pub udp : Bytes
udp = codes "udp"

-- A conversion to `ushort`.
unfoldable pub ushort : ℤ → ℕ
ushort (pos n) = n % 2 ^ 16
ushort (negsuc n) = 2 ^ 16 - 1 - n % 2 ^ 16

-- The address that a text stands for; INADDR_NONE is 2^32 - 1.
unfoldable pub host_address : Resolver → Bytes → Option ℕ
host_address r host = elim (r.gethostbyname host) [
  | some a ↦ some a
  | none ↦ if r.inet_addr host == 2 ^ 32 - 1 then none else some (r.inet_addr host)
]

abbrev pub socket_type : Bytes → SocketType
socket_type protocol = if bytes_eq protocol udp then sock_dgram else sock_stream

-- A socket of the domain that is connected to the address; `refused` is what follows when it is not.
abbrev pub connected : Kernel → List SocketCall → Domain → SocketType → ℕ → SocketAddress → Returned
connected k refused domain type proto to = elim (k.socket domain type proto) [
  | none ↦ fails (called_socket domain type proto ∷ [])
  | some sock ↦
      if k.connect sock to
      then record {
        calls = called_socket domain type proto ∷ called_connect sock to ∷ [];
        descriptor = some sock;
      }
      else fails (called_socket domain type proto ∷ called_connect sock to ∷ refused)
]

unfoldable pub tcp_connect : Resolver → Kernel → Bytes → ℕ → Bytes → Returned
tcp_connect r k host port protocol = elim (host_address r host) [
  | none ↦ fails []
  | some a ↦ elim (r.getprotobyname protocol) [
    | none ↦ fails []
    | some proto ↦ connected k [] pf_inet (socket_type protocol) proto (inet a port)
  ]
]

-- The port of a service: from the name, or else from the number that the text starts with.
unfoldable pub service_port : Resolver → Bytes → Bytes → Option ℕ
service_port r service protocol = elim (r.getservbyname service protocol) [
  | some port ↦ some (port % 2 ^ 16)
  | none ↦ let port = r.htons (ushort (atoi service)) in if port == 0 then none else some port
]

-- A pointer that is NULL is `none`.
unfoldable pub tcp_connect_serv : Resolver → Kernel → Option Bytes → Option Bytes → Returned
tcp_connect_serv r k none service = fails (set_einval ∷ [])
tcp_connect_serv r k (some host) none = fails (set_einval ∷ [])
tcp_connect_serv r k (some host) (some service) = elim (service_port r service tcp) [
  | none ↦ fails []
  | some port ↦ tcp_connect r k host port tcp
]

unfoldable pub tcp_connect_port : Resolver → Kernel → Bytes → ℕ → Returned
tcp_connect_port r k host port = tcp_connect r k host (r.htons port) tcp

-- mapi/netmeter.c
unfoldable pub netmeter_connect : Resolver → Kernel → Bytes → ℕ → Returned
netmeter_connect r k hostname port = tcp_connect_port r k hostname port

-- strncpy of 107 bytes to the 108 of sun_path, of which the last keeps what the stack held.
unfoldable pub sun_path : Bytes → Bytes → Bytes
sun_path stack name = take 107 (name ++ replicate 107 0) ++ drop 107 stack

unfoldable pub pipe_connect : Kernel → Bytes → Option Bytes → Returned
pipe_connect k stack none = fails (set_einval ∷ [])
pipe_connect k stack (some name) =
    connected k (set_epipe ∷ []) af_unix sock_stream 0 (path (sun_path stack name))

abbrev pub is_stream : SocketType → Bool
is_stream sock_stream = true
is_stream sock_dgram = false

-- A socket that is bound to the address and, if it is a stream, listens.
abbrev pub bound : Kernel → Domain → SocketType → ℕ → SocketAddress → ℕ → Returned
bound k domain type proto at backlog = elim (k.socket domain type proto) [
  | none ↦ fails (called_socket domain type proto ∷ [])
  | some sock ↦
      let calls = called_socket domain type proto ∷ called_bind sock at ∷ [] in
      if k.bind sock at
      then (if is_stream type
          then record {
            calls = calls ++ called_listen sock backlog ∷ [];
            descriptor = if k.listen sock backlog then some sock else none;
          }
          else record { calls = calls; descriptor = some sock })
      else fails calls
]

unfoldable pub listen_passive : Resolver → Kernel → ℕ → Bytes → ℕ → Returned
listen_passive r k port protocol backlog = elim (r.getprotobyname protocol) [
  | none ↦ fails []
  | some proto ↦ bound k pf_inet (socket_type protocol) proto (inet 0 port) backlog
]

unfoldable pub pipe_passive : Kernel → Bytes → Option Bytes → ℕ → Returned
pipe_passive k stack none backlog = fails (set_einval ∷ [])
pipe_passive k stack (some name) backlog =
    bound k af_unix sock_stream 0 (path (sun_path stack name)) backlog

unfoldable pub udp_passive_port : Resolver → Kernel → ℕ → Returned
udp_passive_port r k port = listen_passive r k (r.htons port) udp 0

unfoldable pub udp_passive_serv : Resolver → Kernel → Bytes → Returned
udp_passive_serv r k service = elim (service_port r service udp) [
  | none ↦ fails []
  | some port ↦ listen_passive r k port udp 0
]

unfoldable pub tcp_passive_port : Resolver → Kernel → ℕ → ℕ → Returned
tcp_passive_port r k port backlog = listen_passive r k (r.htons port) tcp backlog

unfoldable pub tcp_passive_serv : Resolver → Kernel → Bytes → ℕ → Returned
tcp_passive_serv r k service backlog = elim (service_port r service tcp) [
  | none ↦ fails []
  | some port ↦ listen_passive r k port tcp backlog
]
