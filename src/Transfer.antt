-- ===== src/Transfer.antt =====
-- tcp/tcp_client.cc and tcp/tcp_peer.cc together: the stream of a client, read by a server's peer.
pub mod Session
pub mod System
pub mod Sender
pub mod Receiver
pub mod Invariant
pub mod Safety
pub mod Experiment
pub mod Up
pub mod Course
pub mod Able
pub mod Ending
pub mod Both
mod Trial
mod Tests
use tcp_congestion_mininet.Common.{
  ℕ, zero, suc, ◌+◌, ◌-◌, ◌^◌, ◌≤◌, ◌<◌, ◌≡◌, refl, ap, ap₂, sym, subst, ◌∙◌, arith, Bool, true,
  false, Option, none, some, List, [], ◌∷◌, ◌++◌, Bool-cases, inl, inr,
}
use tcp_congestion_mininet.Common.Lists.{
  length, take, drop, replicate, length-append, length-replicate, take-append_left, take-append,
  take-drop,
}
use tcp_congestion_mininet.Socket.{Outcome, ok, aborted, ◌>>=◌, Stop}
use tcp_congestion_mininet.Codec.{DataReader, network_order, new_reader, read_uint, read_uint32}
use tcp_congestion_mininet.Codec.Views.{IsReader, unread}
use tcp_congestion_mininet.Codec.RoundTrip.{wire, read_uint-wire}
use tcp_congestion_mininet.Client.{TcpClient}
use tcp_congestion_mininet.Client.Send.{header_message}
use tcp_congestion_mininet.Client.Header.{length-header_message, take_wire}
use tcp_congestion_mininet.Client.Progress.{IsSending}
use tcp_congestion_mininet.Peer.{TcpPeer, header_values, read_line, notifi_read}
use tcp_congestion_mininet.Peer.First.{IsNew, read_first-After}
use tcp_congestion_mininet.Peer.Reading.{After, After-cong, notifi_read-After, total_length}
use mathlib.Core.List.{append_assoc, append-nil}

take_all : (l : List ℕ) → take (length l) l ≡ l
take_all l = ap (take (length l)) (sym (append-nil l)) ∙ take-append l []

new_reader-IsReader :
    (l : List ℕ) → length l < 0x100000000 → IsReader (new_reader l (length l) network_order)
unfolding new_reader
new_reader-IsReader l h = record { size = omega arith; within = omega arith; small = h }

unread-new_reader : (l : List ℕ) → unread (new_reader l (length l) network_order) ≡ l
unfolding unread new_reader
unread-new_reader l = take_all l

-- A first read that starts with the bytes of two integers yields the integers.
header_values-wire :
    (first second id total : ℕ) (line rest : List ℕ)
    → id < 0x100000000
    → total < 0x100000000
    → length line < 0x100000000
    → line ≡ wire network_order 4 id ++ (wire network_order 4 total ++ rest)
    → header_values first second line ≡ (id, total)
unfolding header_values
header_values-wire first second id total line rest hid htotal small e =
    let r = new_reader line (length line) network_order in
    let valid : IsReader r = new_reader-IsReader line small in
    let order : r.endianness ≡ network_order = unfold new_reader in refl in
    let start : unread r ≡ wire r.endianness 4 id ++ (wire network_order 4 total ++ rest) =
      unread-new_reader line
      ∙ e
      ∙ ap (λ o. wire o 4 id ++ (wire network_order 4 total ++ rest)) (sym order) in
    let (r1, q1, v1, o1, u1) =
      read_uint-wire 4 id r (wire network_order 4 total ++ rest) valid (omega arith) hid start in
    let next : unread r1 ≡ wire r1.endianness 4 total ++ rest =
      u1 ∙ ap (λ o. wire o 4 total ++ rest) (sym (o1 ∙ order)) in
    let (r2, q2, v2, o2, u2) = read_uint-wire 4 total r1 rest v1 (omega arith) htotal next in
    rw (q1, q2) refl

-- The bytes of the reads, in order.
abbrev pub joined : List (List ℕ) → List ℕ
joined [] = []
joined (line ∷ lines) = line ++ joined lines

pub length-joined : (lines : List (List ℕ)) → length (joined lines) ≡ total_length lines
length-joined [] = refl
length-joined (line ∷ lines) = omega (arith, length-append line (joined lines), length-joined lines)

-- The first read of a connection holds the whole header if it has eight bytes.
first_read :
    (id total sent : ℕ) (line : List ℕ) (lines : List (List ℕ)) (rest : List ℕ)
    → 8 ≤ length line
    → joined (line ∷ lines) ++ rest ≡ header_message id total ++ replicate sent 0
    → line ≡ wire network_order 4 id ++ (wire network_order 4 total ++ drop 8 line)
first_read id total sent line lines rest long e =
    sym (take-drop 8 line)
    ∙ ap (λ x. x ++ drop 8 line)
        (sym (take-append_left 8 line (joined lines ++ rest) long)
          ∙ ap (take 8) (sym (append_assoc line (joined lines) rest) ∙ e)
          ∙ take-append_left 8 (header_message id total) (replicate sent 0)
              (omega (arith, length-header_message id total))
          ∙ take_wire id total)
    ∙ append_assoc (wire network_order 4 id) (wire network_order 4 total) (drop 8 line)

-- The client's stream is as long as its counter says.
pub stream_length : (c : TcpClient) → IsSending c → length c.wire.stream ≡ c.send_byte
stream_length c v = elim (Bool-cases c.first_sent) [
  | inl f ↦ omega (
    arith,
    v.after f,
    ap length (v.after f).1,
    length-header_message c.client_id c.total_byte,
    length-append (header_message c.client_id c.total_byte) (replicate (c.send_byte - 1400) 0),
    length-replicate (c.send_byte - 1400) (let z : ℕ = 0 in z),
  )
  | inr f ↦ omega (arith, (v.before f).0, ap length (v.before f).1)
]

-- The reads that follow one that left `r`.
later_reads-After :
    (now first second : ℕ) (lines : List (List ℕ)) (errno : Bool) (stop : Stop) (id total n : ℕ)
    (r : Outcome TcpPeer)
    → n + total_length lines < 0x100000000
    → After id total n r
    → After id total
        (n + total_length lines)
        (r >>= λ q. notifi_read now first second lines errno stop q)
later_reads-After now first second lines errno stop id total n aborted small a = tt
later_reads-After now first second lines errno stop id total n (ok q) small (g, a, b, c, s) =
    After-cong (notifi_read now first second lines errno stop q) a b (omega (arith, c))
      (notifi_read-After now first second lines errno stop q g s (omega (arith, c)))

-- A new peer that has read the start of the stream of a client past its first packet.
pub part_transfer_lem :
    (c : TcpClient) (now first second : ℕ) (line : List ℕ) (lines : List (List ℕ)) (rest : List ℕ)
    (errno : Bool) (stop : Stop) (p : TcpPeer)
    → IsSending c
    → c.first_sent ≡ true
    → c.client_id < 0x100000000
    → IsNew p
    → 8 ≤ length line
    → joined (line ∷ lines) ++ rest ≡ c.wire.stream
    → After c.client_id c.total_byte
        (total_length (line ∷ lines))
        (notifi_read now first second (line ∷ lines) errno stop p)
unfolding notifi_read
part_transfer_lem c now first second line lines rest errno stop p v f hid new long e =
    let all = e ∙ (v.after f).1 in
    let size : length line + total_length lines ≤ c.send_byte = omega (
      arith,
      ap length e,
      stream_length c v,
      length-joined (line ∷ lines),
      length-append (joined (line ∷ lines)) rest,
    ) in
    let head : header_values first second line ≡ (c.client_id, c.total_byte) =
      header_values-wire first second c.client_id c.total_byte line (drop 8 line) hid
        (omega (arith, v.total_high)) (omega (arith, size, v.within, v.total_high))
        (first_read c.client_id c.total_byte (c.send_byte - 1400) line lines rest long all) in
    let r = read_line now first second line p in
    let start : After c.client_id c.total_byte (length line) r =
      After-cong r (ap (λ x. x.0) head) (ap (λ x. x.1) head) refl (
        read_first-After now first second line p new
          (omega (arith, size, v.within, v.total_high))) in
    later_reads-After now first second lines errno stop c.client_id c.total_byte (length line) r
      (omega (arith, size, v.within, v.total_high)) start

-- A client whose counters agree with its wire, past its first packet, and a new peer that reads
-- its stream in pieces, the first with eight bytes or more: unless a CHECK aborts the process,
-- the peer has the client's number and total, has counted the bytes sent, and has told the server
-- once if these are the total, and not otherwise.
pub transfer_lem :
    (c : TcpClient) (now first second : ℕ) (line : List ℕ) (lines : List (List ℕ)) (errno : Bool)
    (stop : Stop) (p : TcpPeer)
    → IsSending c
    → c.first_sent ≡ true
    → c.client_id < 0x100000000
    → IsNew p
    → 8 ≤ length line
    → joined (line ∷ lines) ≡ c.wire.stream
    → After c.client_id c.total_byte c.send_byte
        (notifi_read now first second (line ∷ lines) errno stop p)
transfer_lem c now first second line lines errno stop p v f hid new long e =
    let size : total_length (line ∷ lines) ≡ c.send_byte =
      sym (length-joined (line ∷ lines)) ∙ ap length e ∙ stream_length c v in
    After-cong (notifi_read now first second (line ∷ lines) errno stop p) refl refl size (
      part_transfer_lem c now first second line lines [] errno stop p v f hid new long
        (append-nil (joined (line ∷ lines)) ∙ e))
