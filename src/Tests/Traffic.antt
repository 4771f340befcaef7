-- ===== src/Tests/Traffic.antt =====
-- Runs of LYDIAN/lydian/traffic on a rule for TCP, on a network that fails once and then answers.
use distributed_apps_platfor.Base.{
  ◌≡◌, ◌↔◌, refl, ℕ, zero, suc, String, Bool, true, false, List, [], ◌∷◌, Option, none, some,
  lookup, text, int, bool, pos, target, Target, posix, ok, err, unbound_local, is_one, string_eq,
  option_eq,
}
use distributed_apps_platfor.Traffic.Rule.{Rule, is_tcp, is_udp, is_http}
use distributed_apps_platfor.Traffic.Client.{
  Exchange, failure, reply, tcp_ping, send_and_recv, udp_send_and_recv,
}
use distributed_apps_platfor.Traffic.Client.Reply.{
  first_reply, received_of, udp_send_and_recv-raises,
}
use distributed_apps_platfor.Traffic.Task.{
  Task, Connection, TrafficRecord, client, tcp, create_task, record_ping,
}
use distributed_apps_platfor.Traffic.Task.Records.{IsPingable, tcp_ping-verdict}

abbrev pub here : Target
here = record { name = some "ns-1"; ip = some "10.0.0.1"; target_type = posix }

abbrev pub web : Rule
web =
    ("ruleid", text "r-1")
    ∷ ("reqid", text "q-1")
    ∷ ("src", text "10.0.0.1")
    ∷ ("dst", text "10.0.0.2")
    ∷ ("protocol", text "TCP")
    ∷ ("port", int (pos 80))
    ∷ ("connected", bool true)
    ∷ ("state", text "ACTIVE")
    ∷ ("tool", text "internal")
    ∷ ("src_target", target here)
    ∷ ("dst_target", target here)
    ∷ []

abbrev ping_data : String
ping_data = "ping"

abbrev pong : Option String
pong = some "pong"

abbrev late : Option String
late = some "late"

abbrev latency : ℕ
latency = 7

abbrev queue : List ℕ
queue = 5 ∷ []

abbrev untooled : Rule
untooled = ("src", text "10.0.0.1") ∷ []

abbrev net : ℕ → Exchange String ℕ
net zero = failure "refused"
net (suc n) = reply "ping" 7

abbrev pub link : Connection
link = record { protocol = tcp; stopped = true; ns = none }

abbrev pub task : Task
task = record { side = client; rule = web; connection = some link }

web-IsPingable : IsPingable web (bool true)
unfolding lookup
web-IsPingable = record {
  source = (text "10.0.0.1", refl);
  destination = (text "10.0.0.2", refl);
  protocol = (text "TCP", refl);
  port = (int (pos 80), refl);
  expected = refl;
  reqid = (text "q-1", refl);
  ruleid = (text "r-1", refl);
}

tcp_ping-runs : (tcp_ping net 3 0).received ≡ some "ping"
unfolding tcp_ping send_and_recv
tcp_ping-runs = refl

tcp_ping-verdict_example :
    let ping = tcp_ping net 3 0 in
    (rec : TrafficRecord (Option ℕ)) × (record_ping web "ping" ping.received ping.latency ping.error
      ≡ ok rec)
    × ((rec.result ≡ true)
        ↔ ((is_one (bool true) ≡ true) ↔ (received_of (first_reply net 3 0) ≡ some "ping")))
tcp_ping-verdict_example = tcp_ping-verdict net 3 0 web "ping" (bool true) web-IsPingable

udp_send_and_recv-raises_example : udp_send_and_recv net 3 0 ≡ err unbound_local
udp_send_and_recv-raises_example = udp_send_and_recv-raises net 3 0

abbrev stop_second : ℕ → Bool
stop_second zero = false
stop_second (suc n) = true

pub web-task : create_task client web ≡ ok task
unfolding create_task lookup is_tcp is_udp is_http
web-task = refl

untooled-tool : lookup "tool" untooled ≡ none
unfolding lookup
untooled-tool = refl
