-- ===== src/Transfer/Sender.antt =====
-- The client of tcp/tcp_client.cc under every event of a connection.
use tcp_congestion_mininet.Common.{
  ℕ, zero, suc, ◌+◌, ◌≤◌, ◌<◌, ◌≡◌, refl, ap, sym, subst, ◌∙◌, arith, Bool, true, false, ltb, ◌||◌,
  Option, List,
}
use tcp_congestion_mininet.Socket.{Outcome, ok, ◌>>=◌, Wrote, Stop}
use tcp_congestion_mininet.Client
use tcp_congestion_mininet.Client.{
  TcpClient, TcpInfo, start_thread, set_congestion, post, time_event, file_event, close_fd,
  set_nonblock, notifi_connect_task, stop_use_once_task, new_client, set_sender_info,
  set_congestion_algo, bind, asyn_connect, log_tcp_info_event, stop_conection_thread, syn_connect,
  notifi_connect,
}
use tcp_congestion_mininet.Client.Send.{next_write_time}
use tcp_congestion_mininet.Client.Progress.{IsSending, Continues, next_write_time-Continues}
use tcp_congestion_mininet.Client.Kept.{
  core, log_tcp_info_event-core, notifi_read-core, syn_connect-core, notifi_connect-core,
  core-IsSending, told, Untold, next_write_time-Untold,
}
use tcp_congestion_mininet.Client.Quiet.{
  Quiet, same, log_tcp_info_event-Quiet, syn_connect-Quiet, notifi_connect-Quiet,
}
use tcp_congestion_mininet.Client.Deactive.{IsCounted, Quiet-IsCounted, notifi_read-Heard}

-- The client's side, of which the other has `n` bytes, and which has heard `m`.
pub record IsClient (id total n m : ℕ) (c : TcpClient) : Type 0 where
  pub sending : IsSending c
  pub named : c.client_id ≡ id
  pub sized : c.total_byte ≡ total
  pub behind : n ≤ c.send_byte
  pub counted : IsCounted c
  pub told : c.deactive_sent ≡ true → 0 < m

-- An event that leaves the message alone, and may count the client.
core-IsClient :
    (id total n m m' : ℕ) (c d : TcpClient)
    → core d ≡ core c
    → IsCounted d
    → (d.deactive_sent ≡ true → 0 < m')
    → IsClient id total n m c
    → IsClient id total n m' d
core-IsClient id total n m m' c d e counted t v = record {
  sending = core-IsSending c d e v.sending;
  named = ap (λ x. x.0) e ∙ v.named;
  sized = ap (λ x. x.1) e ∙ v.sized;
  behind = omega (arith, v.behind, ap (λ x. x.2) e);
  counted = counted;
  told = t;
}

quiet-IsClient :
    (id total n m : ℕ) (c d : TcpClient)
    → core d ≡ core c
    → Quiet c d
    → IsClient id total n m c
    → IsClient id total n m d
quiet-IsClient id total n m c d e q v =
    core-IsClient id total n m m c d e (Quiet-IsCounted c d q v.counted)
      (λ t. v.told (sym q.sent ∙ t)) v

pub timer-IsClient :
    (id total n m next delay : ℕ) (c d : TcpClient)
    → next_write_time next c ≡ ok (d, delay)
    → IsClient id total n m c
    → IsClient id total n m d
timer-IsClient id total n m next delay c d e v =
    let (sending, named, sized, more) : Continues c (ok d) =
      subst (λ (r : Outcome (TcpClient × ℕ)). Continues c (r >>= λ (d, _). ok d)) e
        (next_write_time-Continues next c v.sending) in
    let u : told d ≡ told c =
      subst (λ (r : Outcome (TcpClient × ℕ)). Untold c (r >>= λ (d, _). ok d)) e
        (next_write_time-Untold next c) in
    let q = same c d (ap (λ x. x.2) u) (ap (λ x. x.0) u) (ap (λ x. x.1) u) in
    record {
      sending = sending;
      named = named ∙ v.named;
      sized = sized ∙ v.sized;
      behind = omega (arith, v.behind, more);
      counted = Quiet-IsCounted c d q v.counted;
      told = λ t. v.told (sym q.sent ∙ t);
    }

pub reply-IsClient :
    (id total n m reads bytes : ℕ) (errno : Bool) (stop : Stop) (logged closed : Option TcpInfo)
    (c : TcpClient)
    → reads ≤ bytes
    → IsClient id total n m c
    → IsClient id total n (m + bytes) (Client.notifi_read reads errno stop logged closed c)
reply-IsClient id total n m reads bytes errno stop logged closed c le v =
    let h = notifi_read-Heard reads errno stop logged closed c v.counted in
    core-IsClient id total n m (m + bytes) c _ (notifi_read-core reads errno stop logged closed c)
      h.counted (λ t. heard_some reads c.deactive_sent le (sym h.sent ∙ t) v.told) v
  where
    heard_some :
        (reads : ℕ) (b : Bool)
        → reads ≤ bytes
        → (ltb 0 reads || b) ≡ true
        → (b ≡ true → 0 < m)
        → 0 < m + bytes
    heard_some zero true le e t = omega (arith, t refl)
    heard_some zero false le e t = absurd (cc)
    heard_some (suc k) b le e t = omega arith

pub log-IsClient :
    (id total n m : ℕ) (answer : Option TcpInfo) (c : TcpClient)
    → IsClient id total n m c
    → IsClient id total n m (log_tcp_info_event answer c)
log-IsClient id total n m answer c v =
    quiet-IsClient id total n m c _ (log_tcp_info_event-core answer c)
      (log_tcp_info_event-Quiet answer c) v

pub connect-IsClient :
    (id total n m : ℕ) (connects : Bool) (c : TcpClient)
    → IsClient id total n m c
    → IsClient id total n m (syn_connect connects c)
connect-IsClient id total n m connects c v =
    quiet-IsClient id total n m c _ (syn_connect-core connects c) (syn_connect-Quiet connects c) v

pub connected-IsClient :
    (id total n m : ℕ) (registers : Bool) (answer : Option TcpInfo) (c : TcpClient)
    → IsClient id total n m c
    → IsClient id total n m (notifi_connect registers answer c)
connected-IsClient id total n m registers answer c v =
    quiet-IsClient id total n m c _ (notifi_connect-core registers answer c)
      (notifi_connect-Quiet registers answer c) v

pub kernel-IsClient :
    (id total n m : ℕ) (answers : List Wrote) (c : TcpClient)
    → IsClient id total n m c
    → IsClient id total n m (record c { wire = record (c.wire) { answers = answers } })
kernel-IsClient id total n m answers c v =
    let w = v.sending in
    record {
      sending = record {
        total_low = w.total_low;
        total_high = w.total_high;
        within = w.within;
        before = w.before;
        after = w.after;
      };
      named = v.named;
      sized = v.sized;
      behind = v.behind;
      counted = record { yet = v.counted.yet; told = v.counted.told };
      told = v.told;
    }
