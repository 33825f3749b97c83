-- ===== src/Peer/First.antt =====
-- The first read of a peer of tcp/tcp_peer.cc.
use tcp_congestion_mininet.Common.{
  ℕ, ◌<◌, ◌≡◌, refl, ap, ◌∙◌, arith, true, false, List, if◌then◌else◌,
}
use tcp_congestion_mininet.Common.Lists.{length}
use tcp_congestion_mininet.Socket.{Outcome}
use tcp_congestion_mininet.Peer.{TcpPeer, header_values, read_header, count_line, read_line}
use tcp_congestion_mininet.Peer.Counting.{done_count, report-Alike}
use tcp_congestion_mininet.Peer.Reading.{After, After-cong, count_line-After}

-- A peer that was made and has read nothing.
pub record IsNew (p : TcpPeer) : Type 0 where
  pub first : p.first_packet ≡ true
  pub recv : p.recv_byte ≡ 0
  pub done : p.send_read_done ≡ false
  pub told : done_count p.effects ≡ 0

read_header_lem :
    (now first second : ℕ) (line : List ℕ) (p : TcpPeer)
    → IsNew p
    → let h = read_header now first second line p in
      let (id, total) = header_values first second line in
      (h.first_packet ≡ false)
      × (h.client_id ≡ id)
      × (h.total_byte ≡ total)
      × (h.recv_byte ≡ 0)
      × (h.send_read_done ≡ false)
      × (done_count h.effects ≡ 0)
unfolding read_header
read_header_lem now first second line p v =
    let (id, total) = header_values first second line in
    let a = report-Alike now (record p { client_id = id; total_byte = total }) in
    (refl, a.id, a.total, a.recv ∙ v.recv, a.done ∙ v.done, a.told ∙ v.told)

read_line-first :
    (now first second : ℕ) (line : List ℕ) (p : TcpPeer)
    → p.first_packet ≡ true
    → read_line now first second line p ≡ count_line now line (read_header now first second line p)
unfolding read_line
read_line-first now first second line p f =
    ap {B = Outcome TcpPeer}
      (λ b. count_line now line (if b then read_header now first second line p else p)) f

-- The first read of a new peer, of fewer than 2 ^ 32 bytes: unless a CHECK aborts the process,
-- the peer has the number and the total of the header, has counted the bytes, and has told the
-- server once if these are the total, and not otherwise.
pub read_first-After :
    (now first second : ℕ) (line : List ℕ) (p : TcpPeer)
    → IsNew p
    → length line < 0x100000000
    → let (id, total) = header_values first second line in
      After id total (length line) (read_line now first second line p)
read_first-After now first second line p v small =
    let (f, id, total, recv, done, told) = read_header_lem now first second line p v in
    let h = read_header now first second line p in
    rw (read_line-first now first second line p v.first) (
      After-cong _ id total (omega (arith, recv)) (
        count_line-After now line h f
          (record { early = λ e. (cc done); told = ground (arith, told, done) })
          (omega (arith, recv))))
